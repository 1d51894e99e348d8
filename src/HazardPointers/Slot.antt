-- ===== src/HazardPointers/Slot.antt =====
-- What a slot of HazardPointers.h holds for its owner alone: the retired objects, which are lists here (RetiredList has
-- the pointers), and what the two ways of reclaiming them keep between calls.
use godby.Prelude.{
  ℕ, ◌+◌, ◌*◌, ◌%◌, ◌^◌, Bool, Option, none, some, List, [], ◌∷◌, ◌++◌, leb, ltb, if◌then◌else◌,
}
use godby.Prelude.Chain.{mem}
use godby.HazardPointers.Lists.{kept, dropped, take, drop, push_all}

abbrev pub unsigned : ℕ
unsigned = 2 ^ 32

abbrev pub cleanup_threshold : ℕ
cleanup_threshold = 2000

-- `DeamortizedReclaimer`; the sets are lists.
pub record Reclaimer : Type 0 where
  pub current_slot : Option ℕ
  pub protected_set : List ℕ
  pub next_protected_set : List ℕ
  pub eligible : List ℕ
  pub next_eligible : List ℕ
  pub num_hazard_ptrs : ℕ
  pub next_num_hazard_ptrs : ℕ
  pub num_retires : ℕ

pub record HazardSlot : Type 0 where
  pub retired : List ℕ
  pub num_retires_since_cleanup : ℕ
  pub protected_set : List ℕ
  pub reclaimer : Reclaimer

abbrev pub in_set : List ℕ → ℕ → Bool
in_set set p = mem p set

-- A new slot, on a machine with `hardware` threads.
abbrev pub new_slot : ℕ → HazardSlot
new_slot hardware = record {
  retired = [];
  num_retires_since_cleanup = 0;
  protected_set = [];
  reclaimer = record {
    current_slot = none;
    protected_set = [];
    next_protected_set = [];
    eligible = [];
    next_eligible = [];
    num_hazard_ptrs = hardware;
    next_num_hazard_ptrs = hardware;
    num_retires = 0;
  };
}

-- The scan of the slots begins anew at the first one.
abbrev pub restart : HazardSlot → HazardSlot
restart l = record l {
  retired = [];
  reclaimer = record {
    current_slot = some 0;
    protected_set = l.reclaimer.next_protected_set;
    next_protected_set = [];
    eligible = l.reclaimer.eligible ++ l.reclaimer.next_eligible;
    next_eligible = l.retired;
    num_hazard_ptrs = l.reclaimer.next_num_hazard_ptrs;
    next_num_hazard_ptrs = 0;
    num_retires = 0;
  };
}

-- Up to two objects that are eligible, the slot's `retired_list` again or destroyed.
abbrev pub eject_two : HazardSlot → HazardSlot × List ℕ
eject_two l =
    let r = l.reclaimer in
    let f = in_set r.protected_set in
    (
      record l {
        retired = push_all (kept f (take r.eligible 2)) l.retired;
        reclaimer = record r { eligible = drop r.eligible 2 };
      },
      dropped f (take r.eligible 2),
    )

abbrev pub count_retire : HazardSlot → HazardSlot
count_retire l = record l {
  reclaimer = record l.reclaimer { num_retires = (l.reclaimer.num_retires + 1) % unsigned };
}

-- Too few objects wait to begin a scan.
abbrev pub waits : HazardSlot → Bool
waits l = ltb l.reclaimer.num_retires (2 * l.reclaimer.num_hazard_ptrs % unsigned)

-- `do_reclamation_work` up to its load of a slot's hazard pointer: the slot, what has been destroyed, and whether the
-- load follows.
abbrev pub begin_scan : HazardSlot → HazardSlot × List ℕ × Bool
begin_scan l =
    if waits l
    then (l, [], Bool.false)
    else (let (l', ds) = eject_two (restart l) in (l', ds, Bool.true))

abbrev pub continue_scan : Option ℕ → HazardSlot → HazardSlot × List ℕ × Bool
continue_scan none l = begin_scan l
continue_scan (some i) l = let (l', ds) = eject_two l in (l', ds, Bool.true)

unfoldable pub begin_work : HazardSlot → HazardSlot × List ℕ × Bool
begin_work l = continue_scan l.reclaimer.current_slot (count_retire l)

-- The hazard pointer of the current slot has been loaded.
abbrev pub add_protected : Option ℕ → List ℕ → List ℕ
add_protected none set = set
add_protected (some p) set = p ∷ set

abbrev pub note : Option ℕ → HazardSlot → HazardSlot
note p l = record l {
  reclaimer = record l.reclaimer {
    next_num_hazard_ptrs = (l.reclaimer.next_num_hazard_ptrs + 1) % unsigned;
    next_protected_set = add_protected p l.reclaimer.next_protected_set;
  };
}

abbrev pub advance : Option ℕ → HazardSlot → HazardSlot
advance next l = record l { reclaimer = record l.reclaimer { current_slot = next } }

-- `retire` in the amortized way, up to the scan: the slot, and whether `cleanup` is called.
unfoldable pub count_since_cleanup : HazardSlot → HazardSlot × Bool
count_since_cleanup l =
    let n = (l.num_retires_since_cleanup + 1) % unsigned in
    if leb cleanup_threshold n
    then (record l { num_retires_since_cleanup = 0 }, Bool.true)
    else (record l { num_retires_since_cleanup = n }, Bool.false)

abbrev pub protect_object : Option ℕ → HazardSlot → HazardSlot
protect_object p l = record l { protected_set = add_protected p l.protected_set }

-- The end of `cleanup`: the slot, and what has been destroyed.
abbrev pub finish_cleanup : HazardSlot → HazardSlot × List ℕ
finish_cleanup l =
    let f = in_set l.protected_set in
    (record l { retired = kept f l.retired; protected_set = [] }, dropped f l.retired)
