-- ===== src/BaseThread.antt =====
-- base/base_thread.h and base/base_thread.cc: a thread that runs a function, and the manager that
-- knows which thread is current. A system thread is named by a number; 0 is none.
pub mod Current
mod Tests
use tcp_congestion_mininet.Common.{
  ℕ, Bool, true, false, Option, none, some, ◌&&◌, ◌==◌, if◌then◌else◌, update,
}

-- The thread that each system thread was given by SetCurrentThread, and the main one.
pub record ThreadManager : Type 0 where
  pub key : ℕ → Option ℕ
  pub main_thread_ref : ℕ

-- ThreadManager::ThreadManager, in the system thread `self`.
unfoldable pub new_thread_manager : ℕ → ThreadManager
new_thread_manager self = record { key = λ t. none; main_thread_ref = self }

unfoldable pub current_thread : ℕ → ThreadManager → Option ℕ
current_thread self m = m.key self

unfoldable pub set_current_thread : ℕ → ℕ → ThreadManager → ThreadManager
set_current_thread self thread m = record m { key = update m.key self (some thread) }

unfoldable pub is_main_thread : ℕ → ThreadManager → Bool
is_main_thread self m = self == m.main_thread_ref

-- `address` is the object's, `pid` the system thread that pthread_create made, and `ran` is what the
-- function has made of a number by its calls.
pub record BaseThread : Type 0 where
  pub address : ℕ
  pub has_fun : Bool
  pub running : Bool
  pub pid : Option ℕ
  pub joined : Bool
  pub ran : ℕ

unfoldable pub new_base_thread : ℕ → Bool → BaseThread
new_base_thread address has_fun = record {
  address = address;
  has_fun = has_fun;
  running = true;
  pid = none;
  joined = false;
  ran = 0;
}

unfoldable pub is_current : ℕ → ThreadManager → BaseThread → Bool
is_current self m t = elim (current_thread self m) [ none ↦ false | some x ↦ t.address == x ]

-- pthread_create answers with the new system thread, or fails.
unfoldable pub start : Option ℕ → BaseThread → BaseThread × Bool
start none t = (t, false)
start (some pid) t = (record t { pid = some pid }, true)

-- The function is called while the manager is as given, and finds it so.
unfoldable pub run : (ThreadManager → ℕ → ℕ) → ThreadManager → BaseThread → BaseThread
run fun_ m t = if t.has_fun && t.running then record t { ran = fun_ m t.ran } else t

-- What the system thread does: it names its object, and then runs it.
unfoldable pub thread_fun :
    ℕ → (ThreadManager → ℕ → ℕ) → BaseThread → ThreadManager → BaseThread × ThreadManager
thread_fun self fun_ t m = let n = set_current_thread self t.address m in (run fun_ n t, n)

unfoldable pub stop : BaseThread → BaseThread
stop t = record t { running = false; joined = true }
