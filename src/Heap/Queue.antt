-- ===== src/Heap/Queue.antt =====
-- What base/min_heap.h promises to its callers: a bag of elements, from which the least comes out first.
use tcp_congestion_mininet.Common.{
  ℕ, zero, suc, ◌≤◌, ◌<◌, ◌≡◌, true, false, none, some, Bool, List, [], ◌∷◌, Option,
}
use tcp_congestion_mininet.Common.Bag.{Bag, of_list, empty, units, put}
use tcp_congestion_mininet.Heap.{MinHeap, min_heap_push, min_heap_pop, min_heap_erase}
use tcp_congestion_mininet.Heap.Order.{count, IsValid}

pub data Call : Type 0 where
  push : ℕ → Call
  pop : Call
  erase : ℕ → Call

-- What a call returns: whether it was done, or the element it took.
pub data Answer : Type 0 where
  done : Bool → Answer
  taken : Option ℕ → Answer

-- The abstract queue: what a call may answer on a bag, and the bag it leaves.
pub data Allowed (realloc : ℕ → Bool) (key : ℕ → ℕ) : Bag → Call → Answer → Bag → Type 0 where
  pushed : (e : ℕ) (b : Bag) → Allowed realloc key b (push e) (done true) (put e b)
  no_room :
      (e slots : ℕ) (b : Bag)
      → realloc slots ≡ false
      → Allowed realloc key b (push e) (done false) b
  nothing : Allowed realloc key empty pop (taken none) empty
  least :
      (e : ℕ) (b : Bag)
      → ((x : ℕ) → 0 < units x b → key e ≤ key x)
      → Allowed realloc key (put e b) pop (taken (some e)) b
  erased : (e : ℕ) (b : Bag) → Allowed realloc key (put e b) (erase e) (done true) b
  unknown : (e : ℕ) (b : Bag) → units e b ≡ 0 → Allowed realloc key b (erase e) (done false) b

pub data AllowedRun (realloc : ℕ → Bool) (key : ℕ → ℕ)
    : Bag → List Call → List Answer → Bag → Type 0 where
  quiet : (b : Bag) → AllowedRun realloc key b [] [] b
  next :
      {a b d : Bag} {c : Call} {cs : List Call} {r : Answer} {rs : List Answer}
      → Allowed realloc key a c r b
      → AllowedRun realloc key b cs rs d
      → AllowedRun realloc key a (c ∷ cs) (r ∷ rs) d

-- The caller pushes only what is not in the queue.
abbrev pub IsAsked : Bag → Call → Type 0
IsAsked b (push e) = units e b ≡ 0
IsAsked b pop = Unit {0}
IsAsked b (erase e) = Unit {0}

-- The elements in the first slots.
unfoldable pub slots : ℕ → (ℕ → ℕ) → List ℕ
slots zero p = []
slots (suc n) p = p n ∷ slots n p

unfoldable pub view : MinHeap → Bag
view s = of_list (slots s.n s.p)

module _ (realloc : ℕ → Bool) (key : ℕ → ℕ) where
  unfoldable pub call : Call → MinHeap → MinHeap × Answer
  call (push e) s = let (t, b) = min_heap_push key realloc e s in (t, done b)
  call pop s = let (t, e) = min_heap_pop key s in (t, taken e)
  call (erase e) s = let (t, b) = min_heap_erase key e s in (t, done b)

  unfoldable pub run : List Call → MinHeap → MinHeap × List Answer
  unfolding call
  run [] s = (s, [])
  run (c ∷ cs) s = let (t, r) = call c s in let (u, rs) = run cs t in (u, r ∷ rs)

  -- Every call of a run is asked as it should be.
  unfoldable pub IsCareful : List Call → MinHeap → Type 0
  unfolding call
  IsCareful [] s = Unit {0}
  IsCareful (c ∷ cs) s = IsAsked (view s) c × IsCareful cs (call c s).0

module _ (key : ℕ → ℕ) where
  -- Only an element in a slot has an index.
  pub record IsQueue (s : MinHeap) : Type 0 where
    pub valid : IsValid key s
    pub known : (x : ℕ) → count s.n s.p x ≡ 0 → s.min_heap_idx x ≡ none
