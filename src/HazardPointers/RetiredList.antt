-- ===== src/HazardPointers/RetiredList.antt =====
-- `RetiredList` of HazardPointers.h: retired objects that are linked by their own next pointers.
pub mod Cleanup
pub mod Moves
pub mod Append
use godby.Prelude.{
  ℕ, zero, suc, ◌≡◌, Bool, true, false, Option, none, some, List, [], ◌∷◌, ◌++◌, update,
  if◌then◌else◌,
}

-- The next pointer of each object, and the objects that have been destroyed, in order.
pub record Heap : Type 0 where
  pub next : ℕ → Option ℕ
  pub destroyed : List ℕ

pub record RetiredList : Type 0 where
  pub head : Option ℕ
  pub tail : Option ℕ

abbrev pub empty : RetiredList
empty = record { head = none; tail = none }

abbrev pub set_next : ℕ → Option ℕ → Heap → Heap
set_next p q h = record h { next = update h.next p q }

-- An object that is destroyed has no next pointer any more.
abbrev pub destroy : ℕ → Heap → Heap
destroy p h = record { next = update h.next p none; destroyed = h.destroyed ++ p ∷ [] }

abbrev pub or_else : Option ℕ → ℕ → Option ℕ → Option ℕ
or_else none p tail = some p
or_else (some q) p tail = tail

unfoldable pub push : ℕ → RetiredList → Heap → RetiredList × Heap
push p l h =
    let h' = set_next p l.head h in
    (record { head = some p; tail = or_else (h'.next p) p l.tail }, h')

-- The list, the other list and the heap; `none`: the assertion fails.
append_behind :
    RetiredList → Option ℕ → RetiredList → Heap → Option (RetiredList × RetiredList × Heap)
append_behind l tail (other) h = elim other.head [
  | none ↦ some (l, other, h)
  | some q ↦ elim tail [
    | none ↦ none
    | some p ↦ some (record l { tail = other.tail }, empty, set_next p (some q) h)
  ]
]

unfoldable pub append : RetiredList → RetiredList → Heap → Option (RetiredList × RetiredList × Heap)
unfolding append_behind
append l other h = elim l.head [
  | none ↦ some (other, empty, h)
  | some p ↦ append_behind l l.tail other h
]

-- The first loop of `cleanup`: it leaves the head.
drop_front : ℕ → (ℕ → Bool) → Option ℕ → Heap → Option ℕ × Heap
drop_front zero is_protected head h = (head, h)
drop_front (suc fuel) is_protected none h = (none, h)
drop_front (suc fuel) is_protected (some p) h =
    let rest = drop_front fuel is_protected (h.next p) (destroy p h) in
    if is_protected p then (some p, h) else rest

-- Its second loop: it leaves `prev`.
sweep : ℕ → (ℕ → Bool) → ℕ → Option ℕ → Heap → ℕ × Heap
sweep zero is_protected prev current h = (prev, h)
sweep (suc fuel) is_protected prev none h = (prev, h)
sweep (suc fuel) is_protected prev (some p) h =
    let rest = sweep fuel is_protected p (h.next p) h in
    let rest' = sweep fuel is_protected prev (h.next p) (set_next prev (h.next p) (destroy p h)) in
    if is_protected p then rest else rest'

-- `fuel` is a number that the length of the list does not reach.
finish : ℕ → (ℕ → Bool) → Option ℕ → Heap → RetiredList × Heap
finish fuel is_protected none h = (empty, h)
finish fuel is_protected (some p) h =
    let (tail, h') = sweep fuel is_protected p (h.next p) h in
    (record { head = some p; tail = some tail }, h')

unfoldable pub cleanup : ℕ → (ℕ → Bool) → RetiredList → Heap → RetiredList × Heap
unfolding drop_front sweep finish
cleanup fuel is_protected l h =
    let (head, h') = drop_front fuel is_protected l.head h in finish fuel is_protected head h'

-- What has become of the head, of `into` and of the heap.
eject : ℕ → (ℕ → Bool) → Option ℕ → RetiredList → Heap → Option ℕ × RetiredList × Heap
unfolding push
eject zero is_protected head into h = (head, into, h)
eject (suc n) is_protected none into h = (none, into, h)
eject (suc n) is_protected (some p) into h =
    let (into', h') = push p into h in
    let rest = eject n is_protected (h.next p) into' h' in
    let rest' = eject n is_protected (h.next p) into (destroy p h) in
    if is_protected p then rest else rest'

abbrev pub tail_of : Option ℕ → Option ℕ → Option ℕ
tail_of none tail = none
tail_of (some p) tail = tail

-- The list, `into` and the heap.
unfoldable pub eject_and_move :
    ℕ → RetiredList → RetiredList → (ℕ → Bool) → Heap → RetiredList × RetiredList × Heap
unfolding eject
eject_and_move n l into is_protected h =
    let (head, into', h') = eject n is_protected l.head into h in
    (record { head = head; tail = tail_of head l.tail }, into', h')
