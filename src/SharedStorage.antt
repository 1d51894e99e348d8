-- ===== src/SharedStorage.antt =====
-- godby/include/godby/SharedStorage.h: the objects that all threads share, by type and tags, and the cache
-- of each thread in front of them. A call reads and writes the cache of its own thread only and the rest
-- under the mutex, so that it is one step. A type is a number, and so is an object, by which its pointer
-- is known; `none` is the null pointer.
pub mod Text
pub mod Reload
pub mod Coherent
pub mod Moves
pub mod Calls
pub mod Removal
pub mod Threads
pub mod Stored
pub mod Shared
pub mod Keys
pub mod Deleting
pub mod Early
pub mod Scan
pub mod Trim
pub mod TypeName
pub mod Stale
mod Tests
use godby.Prelude.{
  ℕ, zero, suc, ◌+◌, ◌%◌, ◌^◌, Bool, true, false, not, ◌&&◌, Option, none, some, List, [], ◌∷◌,
  if◌then◌else◌, ◌==◌, update,
}
use godby.SharedStorage.Text.{String, same, make_key}

pub record Entry : Type 0 where
  pub type_name : String
  pub value : Option ℕ
  pub deletable : Bool
  pub reloadable : Bool

abbrev pub new_entry : Entry
new_entry = record { type_name = []; value = none; deletable = false; reloadable = false }

-- `M_storage`; `cached t T` is the `ThreadLocalCache` of thread `t` for type `T`, in which no null pointer
-- is put. `on_pong p` says where `curr` of a `Reloadable` points, and `scheduled` are the timer events of
-- `AddReloadable`, the newest first, with their delays.
pub record Storage : Type 0 where
  pub storage : String → Option Entry
  pub cached : ℕ → ℕ → String → Option ℕ
  pub next_object : ℕ
  pub on_pong : ℕ → Bool
  pub scheduled : List (ℕ × ℕ)
  pub local_hits : ℕ
  pub local_misses : ℕ
  pub shared_hits : ℕ
  pub shared_misses : ℕ

abbrev pub start : Storage
start = record {
  storage = λ key. none;
  cached = λ t T key. none;
  next_object = 0;
  on_pong = λ p. false;
  scheduled = [];
  local_hits = 0;
  local_misses = 0;
  shared_hits = 0;
  shared_misses = 0;
}

-- What a call comes to: a value, or one of the two exceptions.
pub data Result (A : Type 0) : Type 0 where
  returned : A → Result A
  type_mismatch : Result A
  non_deletable : Result A

-- A map with strings for keys, changed at one of them.
unfoldable pub put : {A : Type 0} → (String → A) → String → A → String → A
put f key a k = if same key k then a else f k

abbrev pub inc : ℕ → ℕ
inc n = (n + 1) % 2 ^ 64

-- `Get` of the cache counts a hit or a miss.
unfoldable pub count_local : Option ℕ → Storage → Storage
count_local none s = record s { local_misses = inc s.local_misses }
count_local (some p) s = record s { local_hits = inc s.local_hits }

abbrev pub cache_set : ℕ → ℕ → String → ℕ → Storage → Storage
cache_set t T key p s = record s {
  cached = update s.cached t (update (s.cached t) T (put (s.cached t T) key (some p)));
}

abbrev pub put_entry : String → Entry → Storage → Storage
put_entry key e s = record s { storage = put s.storage key (some e) }

-- `M_storage[key]` puts a new entry where there is none.
abbrev pub entry_at : Option Entry → Entry
entry_at none = new_entry
entry_at (some e) = e

abbrev pub is_some : {A : Type 0} → Option A → Bool
is_some none = false
is_some (some a) = true

-- `it != end() && it->second.type == ConstexprGetType<T>()`
abbrev pub is_of_type : String → Option Entry → Bool
is_of_type name none = false
is_of_type name (some e) = same e.type_name name

-- The last lines of `GetOrCreate`: the cache is filled, unless the value may be deleted.
unfoldable pub fill_cache : ℕ → ℕ → String → Entry → ℕ → Storage → Storage
fill_cache t T key e p s = if e.deletable then s else cache_set t T key p s

-- `name T` is `ConstexprGetType<T>()`.
module _ (name : ℕ → String) where
  abbrev pub find_shared : ℕ → Option Entry → Result (Option ℕ)
  find_shared T none = returned none
  find_shared T (some e) = if same e.type_name (name T) then returned e.value else type_mismatch

  unfoldable pub get_or_null_from : ℕ → String → Option ℕ → Storage → Result (Option ℕ) × Storage
  get_or_null_from T key (some p) s = (returned (some p), s)
  get_or_null_from T key none s = (find_shared T (s.storage key), s)

  unfoldable pub get_or_null : ℕ → ℕ → List String → Storage → Result (Option ℕ) × Storage
  get_or_null t T tags s =
      let key = make_key (name T) tags in
      let found = s.cached t T key in get_or_null_from T key found (count_local found s)

  -- The entry after `make_shared`, and the storage with it.
  abbrev pub created : ℕ → Entry → ℕ → Entry
  created T e p = record e { type_name = name T; value = some p }

  abbrev pub create_entry : ℕ → String → Entry → Storage → Storage
  create_entry T key e s =
      put_entry key (created T e s.next_object)
        (record s { next_object = s.next_object + 1; shared_misses = inc s.shared_misses })

  unfoldable pub create_shared : ℕ → ℕ → String → Entry → Option ℕ → Storage → Result ℕ × Storage
  create_shared t T key e none s =
      let p = s.next_object in (returned p, fill_cache t T key e p (create_entry T key e s))
  create_shared t T key e (some p) s =
      let s' = record s { shared_hits = inc s.shared_hits } in
      if same e.type_name (name T)
      then (returned p, fill_cache t T key e p s')
      else (type_mismatch, s')

  unfoldable pub get_or_create_from : ℕ → ℕ → String → Option ℕ → Storage → Result ℕ × Storage
  get_or_create_from t T key (some p) s = (returned p, s)
  get_or_create_from t T key none s =
      let e = entry_at (s.storage key) in create_shared t T key e e.value s

  unfoldable pub get_or_create : ℕ → ℕ → List String → Storage → Result ℕ × Storage
  get_or_create t T tags s =
      let key = make_key (name T) tags in
      let found = s.cached t T key in get_or_create_from t T key found (count_local found s)

  -- `Has`, and `Has_Reloadable` with `Reloadable<T>` for the type.
  unfoldable pub has : ℕ → ℕ → List String → Storage → Bool
  has t T tags s =
      let key = make_key (name T) tags in
      if is_some (s.cached t T key) then true else is_of_type (name T) (s.storage key)

  unfoldable pub delete_entry : ℕ → String → Option Entry → Storage → Result Bool × Storage
  delete_entry T key none s = (returned false, s)
  delete_entry T key (some e) s =
      if same e.type_name (name T)
      then (if e.deletable
          then (returned true, record s { storage = put s.storage key none })
          else (non_deletable, s))
      else (type_mismatch, s)

  unfoldable pub delete : ℕ → List String → Storage → Result Bool × Storage
  delete T tags s = let key = make_key (name T) tags in delete_entry T key (s.storage key) s

  -- A missing entry gets the key for its type, of which it keeps a view: the string itself is gone when
  -- the call returns, and is taken to be unchanged.
  unfoldable pub deletable_entry : ℕ → String → Option Entry → Storage → Result Unit × Storage
  deletable_entry T key none s =
      (returned tt, put_entry key (record new_entry { type_name = key; deletable = true }) s)
  deletable_entry T key (some e) s =
      if same e.type_name (name T)
      then (returned tt, put_entry key (record e { deletable = true }) s)
      else (type_mismatch, s)

  unfoldable pub deletable : ℕ → List String → Storage → Result Unit × Storage
  deletable T tags s = let key = make_key (name T) tags in deletable_entry T key (s.storage key) s
