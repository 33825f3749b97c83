-- ===== src/Common/Bag.antt =====
-- Lists of addresses up to order.
use Prim.Native.Nat.{ℕ, ◌+◌}
use mathlib.Core.Path.{◌≡◌, refl}
use mathlib.Core.List.{List, [], ◌∷◌}
use mathlib.Core.Quot
use mathlib.Core.Quot.{Quot, Quot-set}
use native.Mathlib.Omega.{arith}
use tcp_congestion_mininet.Common.Tests.{◌==◌, if◌then◌else◌}

-- How often `x` stands in a list.
abbrev pub occurrences : List ℕ → ℕ → ℕ
occurrences [] x = 0
occurrences (e ∷ es) x = occurrences es x + (if e == x then 1 else 0)

abbrev pub SameItems : List ℕ → List ℕ → Type 0
SameItems xs ys = (x : ℕ) → occurrences xs x ≡ occurrences ys x

abbrev pub Bag : Type 0
Bag = Quot SameItems

abbrev pub of_list : List ℕ → Bag
of_list = Quot.mk

abbrev pub empty : Bag
empty = of_list []

-- How often `x` is in a bag.
pub units : ℕ → Bag → ℕ
units x = Quot.lift (hlevel) (λ xs. occurrences xs x) λ xs ys h. h x

pub put : ℕ → Bag → Bag
put e = Quot.lift Quot-set (λ xs. of_list (e ∷ xs)) λ xs ys h. Quot.sound λ x. omega (arith, h x)

pub units-of_list : (x : ℕ) (xs : List ℕ) → units x (of_list xs) ≡ occurrences xs x
unfolding units
units-of_list x xs = refl

pub units-put : (x e : ℕ) (b : Bag) → units x (put e b) ≡ units x b + (if e == x then 1 else 0)
unfolding units put
units-put x e = Quot.ind (λ _. hlevel) λ xs. refl

-- A bag is what it holds.
pub ext : (a b : Bag) → ((x : ℕ) → units x a ≡ units x b) → a ≡ b
unfolding units
ext = Quot.ind (λ _. hlevel Quot-set) λ xs. Quot.ind (λ _. hlevel Quot-set) λ ys. Quot.sound
