-- ===== src/Heap/Order.antt =====
-- The heap order of base/min_heap.h, the index fields, and the bag of elements in the slots.
use tcp_congestion_mininet.Common.{
  ℕ, zero, suc, ◌+◌, ◌-◌, ◌/◌, ◌≤◌, ◌<◌, ◌≡◌, ◌≢◌, refl, ap, none, some, arith, ◌==◌, if◌then◌else◌,
  update,
}
use tcp_congestion_mininet.Heap.{MinHeap, parent}
use native.Mathlib.Decide.{ℕ_discrete}

-- How often `x` stands in the first `n` slots.
unfoldable pub count : ℕ → (ℕ → ℕ) → ℕ → ℕ
count zero p x = 0
count (suc n) p x = count n p x + (if p n == x then 1 else 0)

abbrev pub par : ℕ → ℕ
par c = (c - 1) / 2

pub parent_lem : (i : ℕ) → 0 < i → i < 0x80000000 → parent i ≡ par i
unfolding parent
parent_lem i h b = omega arith

pub count_congr :
    (n : ℕ) (p q : ℕ → ℕ) (x : ℕ) → ((i : ℕ) → i < n → p i ≡ q i) → count n p x ≡ count n q x
unfolding count
count_congr zero p q x h = refl
count_congr (suc n) p q x h = ground (arith, h n, count_congr n p q x (λ i l. h i (omega arith)))

-- A write below `n` trades the old entry for the new one.
pub count-update :
    (n i : ℕ) (p : ℕ → ℕ) (v x : ℕ)
    → i < n
    → count n (update p i v) x + (if p i == x then 1 else 0)
      ≡ count n p x + (if v == x then 1 else 0)
unfolding count
count-update zero i p v x h = absurd (omega arith)
count-update (suc n) i p v x h = elim (ℕ_discrete i n) [
  | yes e ↦ ground (arith, count_congr n (update p i v) p x (λ j l. ground arith))
  | no e ↦ ground (arith, count-update n i p v x (omega arith))
]

pub count_absent : (n : ℕ) (p : ℕ → ℕ) (x : ℕ) → ((i : ℕ) → i < n → p i ≢ x) → count n p x ≡ 0
unfolding count
count_absent zero p x h = refl
count_absent (suc n) p x h =
    ground (arith, h n (omega arith), count_absent n p x (λ i l. h i (omega arith)))

pub count_zero : (n : ℕ) (p : ℕ → ℕ) (x : ℕ) → count n p x ≡ 0 → (i : ℕ) → i < n → p i ≢ x
unfolding count
count_zero zero p x h i l = absurd (omega arith)
count_zero (suc n) p x h i l = ground (arith, count_zero n p x (ground arith) i)

pub count_here : (n : ℕ) (p : ℕ → ℕ) (i : ℕ) → i < n → 0 < count n p (p i)
unfolding count
count_here zero p i h = absurd (omega arith)
count_here (suc n) p i h = elim (ℕ_discrete i n) [
  | yes e ↦ ground (arith, ap p e)
  | no e ↦ ground (arith, count_here n p i (omega arith))
]

pub count_somewhere : (n : ℕ) (p : ℕ → ℕ) (x : ℕ) → 0 < count n p x → (i : ℕ) × (i < n) × (p i ≡ x)
unfolding count
count_somewhere zero p x h = absurd (omega arith)
count_somewhere (suc n) p x h = elim (ℕ_discrete (p n) x) [
  | yes e ↦ (n, omega arith, e)
  | no e ↦ let (i, l, q) = count_somewhere n p x (ground arith) in (i, omega arith, q)
]

-- A write to the next slot adds an entry.
pub count-push :
    (n : ℕ) (p : ℕ → ℕ) (e x : ℕ)
    → count (suc n) (update p n e) x ≡ count n p x + (if e == x then 1 else 0)
unfolding count
count-push n p e x = ground (arith, count_congr n (update p n e) p x (λ i l. ground arith))

pub count-suc :
    (n : ℕ) (p : ℕ → ℕ) (x : ℕ) → count (suc n) p x ≡ count n p x + (if p n == x then 1 else 0)
unfolding count
count-suc n p x = refl

-- An element that moves into the hole, with `e` in its place, leaves the bag the same.
pub count-swap :
    (n i j : ℕ) (p : ℕ → ℕ) (e x : ℕ)
    → i < n
    → j < n
    → i ≢ j
    → count n (update (update p i (p j)) j e) x ≡ count n (update p i e) x
count-swap n i j p e x hi hj ne = ground (
  arith,
  count-update n j (update p i (p j)) e x hj,
  count-update n i p (p j) x hi,
  count-update n i p e x hi,
)

-- Every element in a slot knows its slot.
abbrev pub IsIndexed : MinHeap → Type 0
IsIndexed s = (i : ℕ) → i < s.n → s.min_heap_idx (s.p i) ≡ some i

-- The slots hold different elements.
pub IsIndexed-distinct :
    (s : MinHeap) → IsIndexed s → (i j : ℕ) → i < s.n → j < s.n → s.p i ≡ s.p j → i ≡ j
IsIndexed-distinct s v i j a b e = ground (arith, v i, v j)

module _ (key : ℕ → ℕ) where
  -- No element is smaller than its parent.
  abbrev pub IsHeap : MinHeap → Type 0
  IsHeap s = (c : ℕ) → 0 < c → c < s.n → key (s.p (par c)) ≤ key (s.p c)

  -- `r` is `s` with `e` put in at `hole`, in order again.
  pub record Sifted (s : MinHeap) (hole e : ℕ) (r : MinHeap) : Type 0 where
    pub order : IsHeap r
    pub indexed : IsIndexed r
    pub same_n : r.n ≡ s.n
    pub same_a : r.a ≡ s.a
    pub same_freed : (x : ℕ) → r.freed x ≡ s.freed x
    pub bag : (x : ℕ) → count s.n r.p x ≡ count s.n (update s.p hole e) x

  pub record IsValid (s : MinHeap) : Type 0 where
    pub order : IsHeap s
    pub indexed : IsIndexed s
    pub room : s.n ≤ s.a
    pub small : s.n < 0x80000000

  pub root_least :
      (k : ℕ) (s : MinHeap) → IsHeap s → (i : ℕ) → i < k → i < s.n → key (s.p 0) ≤ key (s.p i)
  root_least zero s v i h l = absurd (omega arith)
  root_least (suc k) s v i h l = ground (arith, v i, root_least k s v (par i))

  -- `r` is `s` with the element `e` added.
  pub record Pushed (s : MinHeap) (e : ℕ) (r : MinHeap) : Type 0 where
    pub valid : IsValid r
    pub more : r.n ≡ s.n + 1
    pub same_freed : (x : ℕ) → r.freed x ≡ s.freed x
    pub bag : (x : ℕ) → count r.n r.p x ≡ count s.n s.p x + (if e == x then 1 else 0)

  -- `r` is `s` without the element `e`.
  pub record Removed (s : MinHeap) (e : ℕ) (r : MinHeap) : Type 0 where
    pub valid : IsValid r
    pub fewer : r.n + 1 ≡ s.n
    pub same_freed : (x : ℕ) → r.freed x ≡ s.freed x
    pub bag : (x : ℕ) → count r.n r.p x + (if e == x then 1 else 0) ≡ count s.n s.p x
    pub unnamed : r.min_heap_idx e ≡ none
