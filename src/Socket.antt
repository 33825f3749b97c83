-- ===== src/Socket.antt =====
-- What the kernel and the checks of the logging library answer to the code of tcp/.
use tcp_congestion_mininet.Common.{ℕ, suc, Bool, true, false, List, [], ◌∷◌, min}

-- How a call ends: with a value, or in a failed CHECK, which aborts the process.
pub data Outcome (A : Type 0) : Type 0 where
  ok : A → Outcome A
  aborted : Outcome A

infixl 5 ◌>>=◌
abbrev pub ◌>>=◌ : {A B : Type 0} → Outcome A → (A → Outcome B) → Outcome B
ok a >>= f = f a
aborted >>= f = aborted

abbrev pub check : {A : Type 0} → Bool → Outcome A → Outcome A
check true k = k
check false k = aborted

-- The call ends with a value, of which `P` holds, or aborts, and `X` holds.
abbrev pub Yields : {A : Type 0} → Type 0 → (A → Type 0) → Outcome A → Type 0
Yields X P (ok a) = P a
Yields X P aborted = X

pub Yields-bind :
    {A B : Type 0} (X : Type 0) (P : A → Type 0) (Q : B → Type 0) (r : Outcome A)
    (f : A → Outcome B)
    → Yields X P r
    → ((a : A) → P a → Yields X Q (f a))
    → Yields X Q (r >>= f)
Yields-bind X P Q (ok a) f p h = h a p
Yields-bind X P Q aborted f p h = p

-- The call ends with a value, of which `P` holds.
abbrev pub Returns : {A : Type 0} → (A → Type 0) → Outcome A → Type 0
Returns P r = Yields ⊥ P r

pub Returns-bind :
    {A B : Type 0} (P : A → Type 0) (Q : B → Type 0) (r : Outcome A) (f : A → Outcome B)
    → Returns P r
    → ((a : A) → P a → Returns Q (f a))
    → Returns Q (r >>= f)
Returns-bind P Q r f p h = Yields-bind ⊥ P Q r f p h

pub Returns-map :
    {A : Type 0} (P Q : A → Type 0) (r : Outcome A)
    → ((a : A) → P a → Q a)
    → Returns P r
    → Returns Q r
Returns-map P Q (ok a) h p = h a p
Returns-map P Q aborted h p = p

pub Returns-both :
    {A : Type 0} (X : Type 0) (P Q : A → Type 0) (r : Outcome A)
    → Returns P r
    → Yields X Q r
    → Returns (λ a. P a × Q a) r
Returns-both X P Q (ok a) p q = (p, q)
Returns-both X P Q aborted p q = p

-- The kernel's answer to write(2): it takes some bytes, at least one, would block, or fails with
-- another error.
pub data Wrote : Type 0 where
  accepts : ℕ → Wrote
  would_block : Wrote
  breaks : Wrote

-- No answer is an error.
abbrev pub IsUnbroken : List Wrote → Type 0
IsUnbroken [] = Unit {0}
IsUnbroken (accepts k ∷ l) = IsUnbroken l
IsUnbroken (would_block ∷ l) = IsUnbroken l
IsUnbroken (breaks ∷ l) = ⊥

-- Every answer takes something.
abbrev pub IsAccepting : List Wrote → Type 0
IsAccepting [] = Unit {0}
IsAccepting (accepts k ∷ l) = IsAccepting l
IsAccepting (would_block ∷ l) = ⊥
IsAccepting (breaks ∷ l) = ⊥

-- A connected socket: the answers to the writes to come (no more answers: they would block), and
-- the bytes that the kernel took.
pub record Wire : Type 0 where
  pub answers : List Wrote
  pub stream : List ℕ

-- How many bytes of `len` the answer takes; `accepts k` offers to take k + 1.
abbrev pub taken : ℕ → ℕ → ℕ
taken k len = min (suc k) len

-- A read that returns at most 0: the end of the stream, which leaves errno alone, or an error, with
-- whether it is EWOULDBLOCK or EAGAIN.
pub data Stop : Type 0 where
  end_of_file : Stop
  fails : Bool → Stop

-- Whether errno says EWOULDBLOCK or EAGAIN after the read, given whether it did before.
abbrev pub errno_after : Bool → Stop → Bool
errno_after errno end_of_file = errno
errno_after errno (fails again) = again
