-- ===== src/HazardPointers.antt =====
-- godby/include/godby/HazardPointers.h: threads that protect objects, retire them and reclaim them, one access of the
-- shared atomics at a time.
pub mod Lists
pub mod RetiredList
pub mod Slot
pub mod Held
pub mod Guards
pub mod Valid
pub mod Moves
pub mod Slots
pub mod Steps
pub mod Tasks
pub mod Retire
pub mod Safety
mod Tests
use godby.Prelude.{
  ℕ, ◌+◌, ◌≡◌, ◌≢◌, Bool, true, false, ◌||◌, Option, none, some, List, [], ◌∷◌, update, ltb, ◌==◌,
  if◌then◌else◌,
}
use godby.Prelude.Chain.{mem, opt_is}
use godby.HazardPointers.Slot.{
  HazardSlot, new_slot, begin_work, note, advance, count_since_cleanup, protect_object,
  finish_cleanup,
}

-- What the owner of a slot does. `held` is the object that its last call of `protect` returned, until `release` or another
-- call of `protect`.
pub data Task : Type 0 where
  ready : (held : Option ℕ) → Task
  loading : (src : ℕ) → Task  -- in `protect`, before its first load of `src`
  announcing : (src p : ℕ) → Task  -- before `slot.store`
  checking : (src p : ℕ) → Task  -- before the load of `current_value`
  scanning : (held : Option ℕ) (i : ℕ) → Task  -- in `cleanup`, before the load of slot `i`'s pointer
  stepping : (held : Option ℕ) (i : ℕ) → Task  -- before the load of slot `i`'s `next`
  noting : (held : Option ℕ) → Task  -- the same in `do_reclamation_work`
  passing : (held : Option ℕ) → Task

pub data Thread : Type 0 where
  outside : Thread
  seeking : (k : ℕ) → Thread  -- in `get_slot` at slot `k`, before the load of `in_use`
  exchanging : (k : ℕ) → Thread  -- before the exchange of `in_use`
  following : (k : ℕ) → Thread  -- before the load of `next`
  linking : (k : ℕ) → Thread  -- before the compare-exchange of `next`
  crashed : Thread  -- has followed a null pointer
  owning : (k : ℕ) (task : Task) → Thread

-- The slots in the order of their list: their atomics and what is their owners'. The objects that the client's atomics
-- `src` point to, those that have been given to `retire`, and those that have been destroyed.
pub record Hazards : Type 0 where
  pub size : ℕ
  pub in_use : ℕ → Bool
  pub protected_ptr : ℕ → Option ℕ
  pub slot : ℕ → HazardSlot
  pub thread : ℕ → Thread
  pub src : ℕ → Option ℕ
  pub retired : ℕ → Bool
  pub destroyed : ℕ → Bool

abbrev pub set_thread : ℕ → Thread → Hazards → Hazards
set_thread t p s = record s { thread = update s.thread t p }

-- The owner of slot `k` goes on with `task`, its slot changed and some objects destroyed.
abbrev pub act : ℕ → ℕ → Task → HazardSlot → List ℕ → Hazards → Hazards
act t k task l ds s = record s {
  thread = update s.thread t (owning k task);
  slot = update s.slot k l;
  destroyed = λ p. s.destroyed p || mem p ds;
}

-- `protect` has loaded a pointer from `src`.
abbrev pub found : ℕ → Option ℕ → Task
found src none = ready none
found src (some p) = announcing src p

abbrev pub has_next : Hazards → ℕ → Bool
has_next s i = ltb (i + 1) s.size

-- The end of the loop over the slots, or the next slot.
abbrev pub scan_on : ℕ → ℕ → Option ℕ → ℕ → Bool → Hazards → Hazards
scan_on t k held i true s = act t k (scanning held (i + 1)) (s.slot k) [] s
scan_on t k held i false s = let (l, ds) = finish_cleanup (s.slot k) in act t k (ready held) l ds s

abbrev pub current : HazardSlot → ℕ → ℕ
current l d = elim l.reclaimer.current_slot [ none ↦ d | some i ↦ i ]

-- The next access of the owner of slot `k`.
unfoldable pub task_step : ℕ → ℕ → Task → Hazards → Hazards
task_step t k (ready held) s = s
task_step t k (loading src) s = set_thread t (owning k (found src (s.src src))) s
task_step t k (announcing src p) s = record s {
  thread = update s.thread t (owning k (checking src p));
  protected_ptr = update s.protected_ptr k (some p);
}
task_step t k (checking src p) s =
    set_thread t (owning k (if opt_is (s.src src) p then ready (some p) else found src (s.src src)))
      s
task_step t k (scanning held i) s =
    act t k (stepping held i) (protect_object (s.protected_ptr i) (s.slot k)) [] s
task_step t k (stepping held i) s = scan_on t k held i (has_next s i) s
task_step t k (noting held) s =
    act t k (passing held) (note (s.protected_ptr (current (s.slot k) 0)) (s.slot k)) [] s
task_step t k (passing held) s =
    let i = current (s.slot k) 0 in
    act t k (ready held) (advance (if has_next s i then some (i + 1) else none) (s.slot k)) [] s

-- Slot `k` is in use, or it was free and is the thread's now.
abbrev pub exchange : ℕ → ℕ → Bool → Hazards → Hazards
exchange t k true s = set_thread t (following k) s
exchange t k false s = record s {
  in_use = update s.in_use k true;
  thread = update s.thread t (owning k (ready none));
}

-- A new slot is linked behind the last one, or another thread has linked one before.
abbrev pub link : ℕ → ℕ → ℕ → Bool → Hazards → Hazards
link hardware t k true s = set_thread t (linking (k + 1)) s
link hardware t k false s = record s {
  size = s.size + 1;
  in_use = update s.in_use s.size true;
  protected_ptr = update s.protected_ptr s.size none;
  slot = update s.slot s.size (new_slot hardware);
  thread = update s.thread t (owning s.size (ready none));
}

-- The next access of a thread, on a machine with `hardware` threads.
unfoldable pub thread_step : ℕ → ℕ → Thread → Hazards → Hazards
unfolding task_step
thread_step hardware t outside s = s
thread_step hardware t (seeking k) s =
    set_thread t (if s.in_use k then following k else exchanging k) s
thread_step hardware t (exchanging k) s = exchange t k (s.in_use k) s
thread_step hardware t (following k) s =
    set_thread t (if has_next s k then seeking (k + 1) else linking k) s
thread_step hardware t (linking k) s = link hardware t k (has_next s k) s
thread_step hardware t crashed s = s
thread_step hardware t (owning k task) s = task_step t k task s

abbrev pub after_push : Bool → ℕ → ℕ → Option ℕ → HazardSlot → Hazards → Hazards
after_push true t k held l s =
    let (l', ds, goes_on) = begin_work l in
    act t k (if goes_on then noting held else ready held) l' ds s
after_push false t k held l s =
    let (l', full) = count_since_cleanup l in
    act t k (if full then scanning held 0 else ready held) l' [] s

-- `retire`, in the amortized or the deamortized way, up to the first load of an atomic.
abbrev pub retire_object : Bool → ℕ → ℕ → Option ℕ → ℕ → Hazards → Hazards
retire_object deamortized t k held p s =
    after_push deamortized t k held (record (s.slot k) { retired = p ∷ (s.slot k).retired })
      (record s { retired = update s.retired p true })

-- An access of a thread, a call that it makes, or a store of the client to an atomic. An object is retired once, when no
-- atomic points to it, and no atomic is made to point to it again.
pub data Step (deamortized : Bool) (hardware : ℕ) (s : Hazards) : Hazards → Type 0 where
  run : (t : ℕ) → Step deamortized hardware s (thread_step hardware t (s.thread t) s)
  get_slot :
      (t : ℕ) → s.thread t ≡ outside → Step deamortized hardware s (set_thread t (seeking 0) s)
  relinquish :
      (t k : ℕ) {held : Option ℕ}
      → s.thread t ≡ owning k (ready held)
      → Step deamortized hardware s
          (record s { in_use = update s.in_use k false; thread = update s.thread t outside })
  spurious :
      (t k : ℕ)
      → s.thread t ≡ linking k
      → has_next s k ≡ false
      → Step deamortized hardware s (set_thread t crashed s)
  protect :
      (t k src : ℕ) {held : Option ℕ}
      → s.thread t ≡ owning k (ready held)
      → Step deamortized hardware s (set_thread t (owning k (loading src)) s)
  release :
      (t k : ℕ) {held : Option ℕ}
      → s.thread t ≡ owning k (ready held)
      → Step deamortized hardware s (record s {
        protected_ptr = update s.protected_ptr k none;
        thread = update s.thread t (owning k (ready none));
      })
  retire :
      (t k p : ℕ) {held : Option ℕ}
      → s.thread t ≡ owning k (ready held)
      → s.retired p ≡ false
      → ((src : ℕ) → opt_is (s.src src) p ≡ false)
      → Step deamortized hardware s (retire_object deamortized t k held p s)
  store :
      (src : ℕ) (o : Option ℕ)
      → ((p : ℕ) → opt_is o p ≡ true → s.retired p ≡ false)
      → Step deamortized hardware s (record s { src = update s.src src o })

-- `hardware` slots, or one if there are none, and no thread.
abbrev pub start : ℕ → (ℕ → Option ℕ) → Hazards
start hardware src = record {
  size = if hardware == 0 then 1 else hardware;
  in_use = λ k. false;
  protected_ptr = λ k. none;
  slot = λ k. new_slot hardware;
  thread = λ t. outside;
  src = src;
  retired = λ p. false;
  destroyed = λ p. false;
}

pub data Reach (deamortized : Bool) (hardware : ℕ) : Hazards → Type 0 where
  begin : (src : ℕ → Option ℕ) → Reach deamortized hardware (start hardware src)
  next :
      {s s' : Hazards}
      → Reach deamortized hardware s
      → Step deamortized hardware s s'
      → Reach deamortized hardware s'
