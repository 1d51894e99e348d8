-- ===== src/AtomicHashmap/Refine.antt =====
-- The map as a client sees it: a partial function on keys, into which a store may be refused.
use godby.Prelude.{
  ℕ, ◌≡◌, ◌≢◌, sym, ◌∙◌, ap, subst, Bool, true, false, Option, none, some, List, [], ◌∷◌, inl, inr,
  Bool-cases, if◌then◌else◌,
}
use godby.AtomicHashmap.{
  Map, Code, ok, enoent, occupy_from, occupy_at, occupy, set_value, get, set, delete, walk_key,
}
use godby.AtomicHashmap.Keyed.{Key, equal}
use godby.AtomicHashmap.Levels.{Valid}
use godby.AtomicHashmap.Laws.{set_lem}
use godby.AtomicHashmap.Walk.{delete_lem}

pub data Call (K V : Type 0) : Type 0 where
  get_of : K → Call K V
  set_to : K → V → Call K V
  delete_of : K → Call K V

pub data Reply (V : Type 0) : Type 0 where
  value : Option V → Reply V
  code : Code → Reply V
  done : Reply V

module _ {K V : Type 0} ⦃key : Key K⦄ where
  unfoldable pub step : Call K V → Map K V → Reply V × Map K V
  step (get_of k) m = (value (get m k), m)
  step (set_to k v) m = (code (set m k v).0, (set m k v).1)
  step (delete_of k) m = (done, delete m k)

  unfoldable pub run : List (Call K V) → Map K V → List (Reply V)
  run [] m = []
  run (c ∷ calls) m = (step c m).0 ∷ run calls (step c m).1

  abbrev pub assign : (K → Option V) → K → Option V → K → Option V
  assign f k v q = if equal k q then v else f q

  -- Replies that a partial function explains: every value is the one last stored, a store may be refused
  -- and then changes nothing.
  pub data Explains : (K → Option V) → List (Call K V) → List (Reply V) → Type 0 where
    end : {f : K → Option V} → Explains f [] []
    got :
        {f : K → Option V} {k : K} {cs : List (Call K V)} {rs : List (Reply V)}
        → Explains f cs rs
        → Explains f (get_of k ∷ cs) (value (f k) ∷ rs)
    stored :
        {f : K → Option V} {k : K} {v : V} {cs : List (Call K V)} {rs : List (Reply V)}
        → Explains (assign f k (some v)) cs rs
        → Explains f (set_to k v ∷ cs) (code ok ∷ rs)
    refused :
        {f : K → Option V} {k : K} {v : V} {cs : List (Call K V)} {rs : List (Reply V)}
        → Explains f cs rs
        → Explains f (set_to k v ∷ cs) (code enoent ∷ rs)
    deleted :
        {f : K → Option V} {k : K} {cs : List (Call K V)} {rs : List (Reply V)}
        → Explains (assign f k none) cs rs
        → Explains f (delete_of k ∷ cs) (done ∷ rs)

  assigned :
      (m m' : Map K V) (k : K) (v : Option V) (f : K → Option V)
      → ((q : K) → f q ≡ get m q)
      → get m' k ≡ v
      → ((q : K) → q ≢ k → get m' q ≡ get m q)
      → (q : K) → assign f k v q ≡ get m' q
  assigned m m' k v f same own others q = elim (Bool-cases (equal k q)) [
    | inl h ↦ rw h (sym own ∙ ap (get m') ((key.beq_iff k q).0 h))
    | inr h ↦ rw h (same q ∙ sym (others q (apart h)))
  ]
    where
      apart : equal k q ≡ false → q ≢ k
      apart h e = false_true ((key.beq_iff k q).1 (sym e)) h
        where
          false_true : {b : Bool} → b ≡ true → b ≡ false → ⊥
          false_true x y = cc

  set_value-Valid :
      (m : Map K V) (k : K) (x : V) (o : Option ℕ)
      → Valid m
      → Valid (set_value m x (occupy_at m k o)).1
  set_value-Valid m k x none v = v
  set_value-Valid m k x (some i) v = record { fills = v.fills; sizes = v.sizes }

  set-Valid : (m : Map K V) (k : K) (x : V) → Valid m → Valid (set m k x).1
  unfolding set occupy
  set-Valid m k x v =
      set_value-Valid m k x (occupy_from (key.hash k) k 0 m.level_capacity m.buckets) v

  delete-Valid : (m : Map K V) (k : K) → Valid m → Valid (delete m k)
  unfolding delete walk_key
  delete-Valid m k v = record { fills = v.fills; sizes = v.sizes }

  -- Every sequence of `Get`, `Set` and `Delete` calls, on a map whose levels fill its array, replies as a
  -- partial function on keys does that may refuse a store, and which the map is at first.
  pub replies-Explains :
      (calls : List (Call K V)) (m : Map K V)
      → Valid m
      → (f : K → Option V) → ((q : K) → f q ≡ get m q)
      → Explains f calls (run calls m)
  unfolding run step
  replies-Explains [] m v f same = end
  replies-Explains (get_of k ∷ calls) m v f same =
      subst (λ r. Explains f (get_of k ∷ calls) (value r ∷ run calls m)) (same k)
        (got (replies-Explains calls m v f same))
  replies-Explains (set_to k x ∷ calls) m v f same = elim (set_lem m k x) [
    | inl (e, own, others) ↦
        subst (λ c. Explains f (set_to k x ∷ calls) (code c ∷ run calls (set m k x).1)) (sym e)
          (stored (
            replies-Explains calls (set m k x).1 (set-Valid m k x v) (assign f k (some x))
              (assigned m (set m k x).1 k (some x) f same own others)))
    | inr (e, full) ↦
        subst (λ r. Explains f (set_to k x ∷ calls) (code r.0 ∷ run calls r.1)) (sym e)
          (refused (replies-Explains calls m v f same))
  ]
  replies-Explains (delete_of k ∷ calls) m v f same =
      let (own, others) = delete_lem k m v in
      deleted (
        replies-Explains calls (delete m k) (delete-Valid m k v) (assign f k none)
          (assigned m (delete m k) k none f same own others))
