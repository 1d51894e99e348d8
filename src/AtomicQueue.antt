-- ===== src/AtomicQueue.antt =====
-- godby/include/godby/AtomicQueue.h: an element of `AtomicQueue2`, which any number of threads store
-- into and load from by `do_push_any` and `do_pop_any` (the branch without SPSC). An item that is moved out of
-- the element is copied.
pub mod Handover
pub mod Indices
pub mod Atomic
pub mod AtomicHandover
pub mod Remap
pub mod Position
mod Tests
mod AtomicTests
mod PositionTests
use godby.Prelude.{ℕ, ◌≡◌, Bool, true, false, List, [], ◌∷◌, ◌++◌, update}

-- The states of an element.
pub data State : Type 0 where
  empty : State
  storing : State
  stored : State
  loading : State

-- Where a thread stands, with what it stores or has loaded.
pub data Worker (A : Type 0) : Type 0 where
  idle : Worker A
  pushing : (x : A) → Worker A  -- before the compare-exchange from EMPTY
  filling : (x : A) → Worker A  -- before `q_element = element`
  filled : (x : A) → Worker A  -- before `state.store(STORED)`
  popping : Worker A  -- before the compare-exchange from STORED
  taking : Worker A  -- before `element{std::move(q_element)}`
  taken : (x : A) → Worker A  -- before `state.store(EMPTY)`

-- The state and the element, the threads, and what has been stored and returned, the latest first.
pub record Slot (A : Type 0) : Type 0 where
  pub state : State
  pub element : A
  pub worker : ℕ → Worker A
  pub pushed : List A
  pub popped : List A

module _ {A : Type 0} where
  abbrev pub set_worker : Slot A → ℕ → Worker A → Slot A
  set_worker s t p = record s { worker = update s.worker t p }

  -- `compare_exchange_weak` from EMPTY to STORING and from STORED to LOADING; one that fails, for the
  -- state or for no reason, is tried again.
  abbrev pub claim_push : Slot A → ℕ → A → State → Slot A
  claim_push s t x empty = record s { state = storing; worker = update s.worker t (filling x) }
  claim_push s t x storing = s
  claim_push s t x stored = s
  claim_push s t x loading = s

  abbrev pub claim_pop : Slot A → ℕ → State → Slot A
  claim_pop s t stored = record s { state = loading; worker = update s.worker t taking }
  claim_pop s t empty = s
  claim_pop s t storing = s
  claim_pop s t loading = s

  -- The next access of a thread to the element.
  unfoldable pub access : ℕ → Worker A → Slot A → Slot A
  access t idle s = s
  access t (pushing x) s = claim_push s t x s.state
  access t (filling x) s = record s { element = x; worker = update s.worker t (filled x) }
  access t (filled x) s = record s {
    state = stored;
    worker = update s.worker t idle;
    pushed = x ∷ s.pushed;
  }
  access t popping s = claim_pop s t s.state
  access t taking s = record s { worker = update s.worker t (taken s.element) }
  access t (taken x) s = record s {
    state = empty;
    worker = update s.worker t idle;
    popped = x ∷ s.popped;
  }

  -- A thread begins a push or a pop, makes its next access, or loses a weak compare-exchange.
  pub data Step (s : Slot A) : Slot A → Type 0 where
    push : (t : ℕ) (x : A) → s.worker t ≡ idle → Step s (set_worker s t (pushing x))
    pop : (t : ℕ) → s.worker t ≡ idle → Step s (set_worker s t popping)
    run : (t : ℕ) → Step s (access t (s.worker t) s)
    spurious : Step s s

  -- An element just constructed.
  abbrev pub start : A → Slot A
  start d = record { state = empty; element = d; worker = λ t. idle; pushed = []; popped = [] }

  pub data Reach (d : A) : Slot A → Type 0 where
    begin : Reach d (start d)
    next : {s s' : Slot A} → Reach d s → Step s s' → Reach d s'

  -- What the element holds for a pop.
  abbrev pub held : State → A → List A
  held empty e = []
  held storing e = []
  held stored e = e ∷ []
  held loading e = e ∷ []
