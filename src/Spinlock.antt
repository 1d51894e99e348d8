-- ===== src/Spinlock.antt =====
-- godby/include/godby/Spinlock.h: any number of threads that lock and unlock, one access at a time.
pub mod Exclusion
mod Tests
use godby.Prelude.{ℕ, ◌≡◌, Bool, true, false, if◌then◌else◌, update}

-- Where a thread stands: outside, in the loop of `lock`, between `lock` and `unlock`, and in `unlock`.
pub data Thread : Type 0 where
  outside : Thread
  locking : Thread
  inside : Thread
  unlocking : Thread

-- `M_locked`, and the threads.
pub record Spinlock : Type 0 where
  pub locked : Bool
  pub thread : ℕ → Thread

abbrev pub start : Spinlock
start = record { locked = false; thread = λ t. outside }

-- The next access of a thread: a `compare_exchange_strong(false, true)` that fails is tried again.
unfoldable pub access : ℕ → Thread → Spinlock → Spinlock
access t outside s = s
access t locking s =
    if s.locked then s else record s { locked = true; thread = update s.thread t inside }
access t inside s = s
access t unlocking s = record s { locked = false; thread = update s.thread t outside }

-- A thread calls `lock` from outside and `unlock` from inside, or makes its next access.
pub data Step (s : Spinlock) : Spinlock → Type 0 where
  lock : (t : ℕ) → s.thread t ≡ outside → Step s (record s { thread = update s.thread t locking })
  unlock :
      (t : ℕ) → s.thread t ≡ inside → Step s (record s { thread = update s.thread t unlocking })
  run : (t : ℕ) → Step s (access t (s.thread t) s)

pub data Reach : Spinlock → Type 0 where
  begin : Reach start
  next : {s s' : Spinlock} → Reach s → Step s s' → Reach s'
