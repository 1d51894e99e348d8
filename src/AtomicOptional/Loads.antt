-- ===== src/AtomicOptional/Loads.antt =====
-- What the calls of load may return.
use mathlib.Core.List.{Memᴰ}
use godby.Prelude.{
  ℕ, ◌≡◌, refl, sym, ◌∙◌, subst, true, false, inl, inr, Option, none, some, update, update_cases,
  if◌then◌else◌, Bool-cases,
}
use godby.AtomicOptional.{
  Arithmetic, Thread, idle, checking, reading, loaded, storing, marking, emptying, clearing,
  AtomicOptional, set_thread, call_store, call_store_nullopt, access, Step, load, store,
  store_nullopt, run, Reach, empty, full, next,
}

-- A value has been stored, and without one the optional has been empty.
abbrev pub Explains : AtomicOptional → Option Arithmetic → Type 0
Explains s none = s.emptied ≡ true
Explains s (some x) = Memᴰ x s.stored

module _ (default : Arithmetic) where
  abbrev Place : Thread → AtomicOptional → Type 0
  Place idle s = Unit
  Place checking s = Unit
  Place reading s = Memᴰ s.value s.stored
  Place (loaded result) s = Explains s result
  Place (storing val) s = Memᴰ val s.stored
  Place marking s = Memᴰ s.value s.stored
  Place emptying s = Memᴰ default s.stored × (s.emptied ≡ true)
  Place clearing s = s.emptied ≡ true

  record Valid (s : AtomicOptional) : Type 0 where
    pub held : s.has ≡ true → Memᴰ s.value s.stored
    pub bare : s.has ≡ false → s.emptied ≡ true
    pub place : (t : ℕ) → Place (s.thread t) s

  -- What a step may do to what the threads rely on.
  record Grows (s s' : AtomicOptional) : Type 0 where
    pub value : Memᴰ s.value s.stored → Memᴰ s'.value s'.stored
    pub stored : (x : Arithmetic) → Memᴰ x s.stored → Memᴰ x s'.stored
    pub emptied : s.emptied ≡ true → s'.emptied ≡ true

  grown-Place : (s s' : AtomicOptional) (p : Thread) → Grows s s' → Place p s → Place p s'
  grown-Place s s' idle g h = tt
  grown-Place s s' checking g h = tt
  grown-Place s s' reading g h = g.value h
  grown-Place s s' (loaded none) g h = g.emptied h
  grown-Place s s' (loaded (some x)) g h = g.stored x h
  grown-Place s s' (storing val) g h = g.stored val h
  grown-Place s s' marking g h = g.value h
  grown-Place s s' emptying g h = (g.stored default h.0, g.emptied h.1)
  grown-Place s s' clearing g h = g.emptied h

  -- A step of thread t, which then stands at p.
  after-Place :
      (s s' : AtomicOptional) (t : ℕ) (p : Thread)
      → s'.thread ≡ update s.thread t p
      → Grows s s'
      → Place p s'
      → Valid s
      → (u : ℕ) → Place (s'.thread u) s'
  after-Place s s' t p e g own v u =
      subst (λ f. Place (f u) s') (sym e)
        (elim (update_cases s.thread t p u) [
          | inl (_, e') ↦ subst (λ q. Place q s') (sym e') own
          | inr e' ↦ subst (λ q. Place q s') (sym e') (grown-Place s s' (s.thread u) g (v.place u))
        ])

  -- A step that changes only where the thread stands.
  set_thread-Valid :
      (s : AtomicOptional) (t : ℕ) (p : Thread) → Place p s → Valid s → Valid (set_thread s t p)
  set_thread-Valid s t p own v = record {
    held = v.held;
    bare = v.bare;
    place =
        after-Place s (set_thread s t p) t p refl same (grown-Place s (set_thread s t p) p same own)
          v;
  }
    where
      same : Grows s (set_thread s t p)
      same = record { value = λ m. m; stored = λ x m. m; emptied = λ e. e }

  found-Place : (s : AtomicOptional) → Valid s → Place (if s.has then reading else loaded none) s
  found-Place s v = elim (Bool-cases s.has) [
    | inl h ↦ subst (λ b. Place (if b then reading else loaded none) s) (sym h) (v.held h)
    | inr n ↦ subst (λ b. Place (if b then reading else loaded none) s) (sym n) (v.bare n)
  ]

  access-Valid :
      (t : ℕ) (p : Thread) (s : AtomicOptional)
      → s.thread t ≡ p
      → Valid s
      → Valid (access default t p s)
  unfolding access
  access-Valid t p s e v = from p (subst (λ q. Place q s) e (v.place t))
    where
      same_stored :
          (s' : AtomicOptional)
          → s'.stored ≡ s.stored
          → s'.emptied ≡ s.emptied
          → Memᴰ s'.value s'.stored
          → Grows s s'
      same_stored s' e e' m = record {
        value = λ _. m;
        stored = λ x. subst (Memᴰ x) (sym e);
        emptied = λ h. e' ∙ h;
      }

      from : (p : Thread) → Place p s → Valid (access default t p s)
      from idle h = v
      from checking h =
          set_thread-Valid s t (if s.has then reading else loaded none) (found-Place s v) v
      from reading h = set_thread-Valid s t (loaded (some s.value)) h v
      from (loaded result) h = set_thread-Valid s t idle tt v
      from (storing val) h = record {
        held = λ _. h;
        bare = v.bare;
        place =
            after-Place s (access default t (storing val) s) t marking refl
              (same_stored (access default t (storing val) s) refl refl h) h v;
      }
      from marking h = record {
        held = λ _. h;
        bare = λ (n : true ≡ false). absurd cc;
        place =
            after-Place s (access default t marking s) t idle refl
              (same_stored (access default t marking s) refl refl h) tt v;
      }
      from emptying h = record {
        held = λ _. h.0;
        bare = v.bare;
        place =
            after-Place s (access default t emptying s) t clearing refl
              (same_stored (access default t emptying s) refl refl h.0) h.1 v;
      }
      from clearing h = record {
        held = λ (n : false ≡ true). absurd cc;
        bare = λ _. h;
        place =
            after-Place s (access default t clearing s) t idle refl
              (record { value = λ m. m; stored = λ x m. m; emptied = λ e. e }) tt v;
      }

  -- A call of store or store(std::nullopt) begins.
  Step-Valid : {s s' : AtomicOptional} → Step default s s' → Valid s → Valid s'
  Step-Valid {s} (load t h) v = set_thread-Valid s t checking tt v
  Step-Valid {s} (store t val h) v = record {
    held = λ h. Memᴰ.tail (v.held h);
    bare = v.bare;
    place =
        after-Place s (call_store s t val) t (storing val) refl
          (record { value = Memᴰ.tail; stored = λ x. Memᴰ.tail; emptied = λ e. e }) (Memᴰ.head refl)
          v;
  }
  Step-Valid {s} (store_nullopt t h) v = record {
    held = λ h. Memᴰ.tail (v.held h);
    bare = λ _. refl;
    place =
        after-Place s (call_store_nullopt default s t) t emptying refl
          (record { value = Memᴰ.tail; stored = λ x. Memᴰ.tail; emptied = λ _. refl })
          (Memᴰ.head refl, refl) v;
  }
  Step-Valid {s} (run t) v = access-Valid t (s.thread t) s refl v

  Reach-Valid : {s : AtomicOptional} → Reach default s → Valid s
  Reach-Valid (empty value) = record {
    held = λ (h : false ≡ true). absurd cc;
    bare = λ _. refl;
    place = λ t. tt;
  }
  Reach-Valid (full val) = record {
    held = λ _. Memᴰ.head refl;
    bare = λ (n : true ≡ false). absurd cc;
    place = λ t. tt;
  }
  Reach-Valid (next before step) = Step-Valid step (Reach-Valid before)

-- For a value of an arithmetic type, however the accesses of any number of threads interleave: a value that load returns has been given to the
-- constructor or to a call of store, or is the default value and store(std::nullopt) has been called; and load
-- returns no value only if the optional was created without one or store(std::nullopt) has been called.
pub load_lem :
    (default : Arithmetic) {s : AtomicOptional}
    → Reach default s
    → (t : ℕ) (result : Option Arithmetic) → s.thread t ≡ loaded result
    → Explains s result
load_lem default {s} reach t result e =
    subst (λ q. Place default q s) e ((Reach-Valid default reach).place t)
