-- ===== src/HazardPointers/Held.antt =====
-- What holds of an object that a thread has protected, and which steps leave it so.
use godby.Prelude.{
  ℕ, ◌≤◌, ◌<◌, ◌≡◌, ◌≢◌, sym, ◌∙◌, subst, Bool, true, false, ◌||◌, Option, none, some, arith, inl,
  inr, update, ltb, ◌==◌, ==_iff, Bool-cases, if◌then◌else◌,
}
use godby.Prelude.Chain.{mem}
use godby.HazardPointers.Slot.{HazardSlot}
use godby.HazardPointers.{
  Task, ready, loading, announcing, checking, scanning, stepping, noting, passing, Thread, outside,
  seeking, exchanging, following, linking, crashed, owning, Hazards, current,
}

-- Whether the scan of a reclaimer has passed slot `k`.
abbrev pub passed : ℕ → Option ℕ → Bool
passed k none = true
passed k (some i) = ltb k i

abbrev pub waiting : ℕ → HazardSlot → Bool
waiting p l = mem p l.reclaimer.eligible || mem p l.reclaimer.next_eligible

-- Slot `k` protects `p`: a reclaimer that may destroy `p` has found it in the slot, if its scan has passed the slot.
pub record SlotGuard (k p : ℕ) (l : HazardSlot) : Type 0 where
  pub now : mem p l.reclaimer.eligible ≡ true → mem p l.reclaimer.protected_set ≡ true
  pub later :
      waiting p l ≡ true
      → passed k l.reclaimer.current_slot ≡ true
      → mem p l.reclaimer.next_protected_set ≡ true

abbrev pub TaskGuard : ℕ → ℕ → HazardSlot → Task → Type 0
TaskGuard k p l (ready held) = Unit
TaskGuard k p l (loading src) = Unit
TaskGuard k p l (announcing src q) = Unit
TaskGuard k p l (checking src q) = Unit
TaskGuard k p l (scanning held i) = mem p l.retired ≡ true → k < i → mem p l.protected_set ≡ true
TaskGuard k p l (stepping held i) = mem p l.retired ≡ true → k ≤ i → mem p l.protected_set ≡ true
TaskGuard k p l (noting held) = Unit
TaskGuard k p l (passing held) =
    waiting p l ≡ true → current l 0 ≡ k → mem p l.reclaimer.next_protected_set ≡ true

abbrev pub ThreadGuard : ℕ → ℕ → (ℕ → HazardSlot) → Thread → Type 0
ThreadGuard k p slot outside = Unit
ThreadGuard k p slot (seeking j) = Unit
ThreadGuard k p slot (exchanging j) = Unit
ThreadGuard k p slot (following j) = Unit
ThreadGuard k p slot (linking j) = Unit
ThreadGuard k p slot crashed = Unit
ThreadGuard k p slot (owning j task) = TaskGuard k p (slot j) task

-- The owner of slot `k` may use `p`.
pub record Held (s : Hazards) (k p : ℕ) : Type 0 where
  pub inside : k < s.size
  pub ptr : s.protected_ptr k ≡ some p
  pub alive : s.destroyed p ≡ false
  pub slots : (j : ℕ) → SlotGuard k p (s.slot j)
  pub threads : (u : ℕ) → ThreadGuard k p s.slot (s.thread u)

-- A thread's slot is what it was.
abbrev pub SlotKept : Hazards → Hazards → Thread → Type 0
SlotKept s s' outside = Unit
SlotKept s s' (seeking j) = Unit
SlotKept s s' (exchanging j) = Unit
SlotKept s s' (following j) = Unit
SlotKept s s' (linking j) = Unit
SlotKept s s' crashed = Unit
SlotKept s s' (owning j task) = s'.slot j ≡ s.slot j

kept-ThreadGuard :
    (k p : ℕ) (s s' : Hazards) (x : Thread)
    → SlotKept s s' x
    → ThreadGuard k p s.slot x
    → ThreadGuard k p s'.slot x
kept-ThreadGuard k p s s' outside e g = tt
kept-ThreadGuard k p s s' (seeking j) e g = tt
kept-ThreadGuard k p s s' (exchanging j) e g = tt
kept-ThreadGuard k p s s' (following j) e g = tt
kept-ThreadGuard k p s s' (linking j) e g = tt
kept-ThreadGuard k p s s' crashed e g = tt
kept-ThreadGuard k p s s' (owning j task) e g = subst (λ l. TaskGuard k p l task) (sym e) g

-- Thread t goes on as `x`, and the others as they were.
pub others_and {ℓ} :
    (P : ℕ → Thread → Type ℓ) (thread : ℕ → Thread) (t : ℕ) (x : Thread)
    → P t x
    → ((u : ℕ) → t ≢ u → P u (thread u))
    → (u : ℕ) → P u (update thread t x u)
others_and P thread t x own others u = elim (Bool-cases (t == u)) [
  | inl e ↦
      subst (λ b. P u (if b then x else thread u)) (sym e)
        (subst (λ u. P u x) ((==_iff t u).0 e) own)
  | inr e ↦
      subst (λ b. P u (if b then x else thread u)) (sym e)
        (others u (λ e'. ground (arith, (==_iff t u).1 e')))
]

-- A step of thread t that leaves the pointer of slot `k` and does not destroy `p`.
pub kept-Held :
    (k p t : ℕ) (x : Thread) (s s' : Hazards)
    → s'.thread ≡ update s.thread t x
    → s.size ≤ s'.size
    → s'.protected_ptr k ≡ s.protected_ptr k
    → s'.destroyed p ≡ false
    → ((j : ℕ) → SlotGuard k p (s'.slot j))
    → ((u : ℕ) → t ≢ u → SlotKept s s' (s.thread u))
    → ThreadGuard k p s'.slot x
    → Held s k p
    → Held s' k p
kept-Held k p t x s s' e grown ptr alive slots same own held = record {
  inside = omega (arith, grown, held.inside);
  ptr = ptr ∙ held.ptr;
  alive = alive;
  slots = slots;
  threads =
      subst (λ f. (u : ℕ) → ThreadGuard k p s'.slot (f u)) (sym e)
        (others_and (λ u y. ThreadGuard k p s'.slot y) s.thread t x own
          (λ u ne. kept-ThreadGuard k p s s' (s.thread u) (same u ne) (held.threads u)));
}
