-- ===== src/Lock.antt =====
-- base/lock.h: the spin lock, taken by several threads. A thread is before Enter, inside, or after
-- Leave; a step is one compare-and-swap.
pub mod Exclusion
mod Tests
use tcp_congestion_mininet.Common.{
  ℕ, zero, suc, Bool, true, false, List, [], ◌∷◌, ◌≡◌, if◌then◌else◌, ◌==◌,
}

-- `__sync_bool_compare_and_swap` on the word of the lock: the word after it, and the answer.
unfoldable pub atomic_cas : ℕ → ℕ → ℕ → ℕ × Bool
atomic_cas word old new = if word == old then (new, true) else (word, false)

pub data Place : Type 0 where
  outside entering inside leaving : Place

-- One turn of the loop of atomic_lock, of a thread that enters.
unfoldable pub try_enter : ℕ → ℕ × Place
try_enter word = let (w, swapped) = atomic_cas word 0 1 in (w, if swapped then inside else entering)

-- One turn of the loop of atomic_unlock, of a thread that leaves.
unfoldable pub try_leave : ℕ → ℕ × Place
try_leave word = let (w, swapped) = atomic_cas word 1 0 in (w, if swapped then outside else leaving)

-- What a thread does next: LockScope's constructor and destructor call Enter and Leave, in this order.
unfoldable pub turn : ℕ → Place → ℕ × Place
turn word outside = (word, entering)
turn word entering = try_enter word
turn word inside = (word, leaving)
turn word leaving = try_leave word

-- The threads, with one of them, by its place in the list, making its turn.
unfoldable pub step : ℕ → ℕ → List Place → ℕ × List Place
step i word [] = (word, [])
step zero word (t ∷ ts) = let (w, u) = turn word t in (w, u ∷ ts)
step (suc i) word (t ∷ ts) = let (w, us) = step i word ts in (w, t ∷ us)

-- A schedule: the threads in the order of their turns.
unfoldable pub run : List ℕ → ℕ → List Place → ℕ × List Place
run [] word ts = (word, ts)
run (i ∷ is) word ts = let (w, us) = step i word ts in run is w us
