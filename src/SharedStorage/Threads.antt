-- ===== src/SharedStorage/Threads.antt =====
-- The calls of any number of threads, one after the other, and the timer events of the worker thread.
use godby.Prelude.{ℕ, ◌≡◌, ◌≢◌, none, some, List}
use godby.SharedStorage.Text.{String, make_key}
use godby.SharedStorage.{Storage, start, get_or_null, get_or_create, delete, deletable}
use godby.SharedStorage.Reload.{execute, reload, get_or_create_reloadable}
use godby.SharedStorage.Coherent.{Valid, Uncached}
use godby.SharedStorage.Removal.{delete-Valid, deletable-Valid}
use godby.SharedStorage.Calls.{
  get_or_create-Valid, get_or_null-Valid, get_or_create_reloadable-Valid,
}

module _ (name : ℕ → String) where
  -- `Deletable` is called for a key that no thread has cached, as before the value is created.
  pub data Step (s : Storage) : Storage → Type 0 where
    gets : (t T : ℕ) (tags : List String) → Step s (get_or_null name t T tags s).1
    creates : (t T : ℕ) (tags : List String) → Step s (get_or_create name t T tags s).1
    creates_reloadable :
        (t U interval : ℕ) (tags : List String)
        → Step s (get_or_create_reloadable name t U interval tags s).1
    deletes : (T : ℕ) (tags : List String) → Step s (delete name T tags s).1
    makes_deletable :
        (T : ℕ) (tags : List String)
        → Uncached s (make_key (name T) tags)
        → Step s (deletable name T tags s).1
    fires : (p interval : ℕ) → Step s (execute p interval s)

  pub data Reach : Storage → Type 0 where
    begin : Reach start
    next : {s s' : Storage} → Reach s → Step s s' → Reach s'

  -- Steps after `s`, none of which deletes the key.
  pub data Since (key : String) (s : Storage) : Storage → Type 0 where
    here : Since key s s
    later : {s' s″ : Storage} → Since key s s' → Step s' s″ → s″.storage key ≢ none → Since key s s″

  pub Step-Valid : {s s' : Storage} → Step s s' → Valid name s → Valid name s'
  unfolding execute reload
  Step-Valid {s} (gets t T tags) v = get_or_null-Valid name t T tags s v
  Step-Valid {s} (creates t T tags) v = get_or_create-Valid name t T tags s v
  Step-Valid {s} (creates_reloadable t U interval tags) v =
      get_or_create_reloadable-Valid name t U interval tags s v
  Step-Valid {s} (deletes T tags) v = delete-Valid name T tags s v
  Step-Valid {s} (makes_deletable T tags free) v = deletable-Valid name T tags s free v
  Step-Valid {s} (fires p interval) v = v

  pub Reach-Valid : {s : Storage} → Reach s → Valid name s
  Reach-Valid begin = record {
    backed = λ t T key p h. absurd (contrary h);
    older = λ key e p h. absurd (contrary h);
    apart = λ key e key' e' p h. absurd (contrary h);
  }
    where
      contrary : {A : Type 0} {a : A} → none ≡ some a → ⊥
      contrary h = cc
  Reach-Valid (next before step) = Step-Valid step (Reach-Valid before)
