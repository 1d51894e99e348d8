-- ===== src/SharedStorage/Reload.antt =====
-- `Reloadable` of SharedStorage.h, an object with two halves, `ping` and `pong`, and the calls for it.
-- What is returned is the object and which half is meant.
use godby.Prelude.{
  ℕ, ◌+◌, ◌%◌, ◌^◌, Bool, true, false, not, Option, none, some, List, ◌∷◌, if◌then◌else◌, update,
}
use godby.SharedStorage.Text.{String, same, make_key}
use godby.SharedStorage.{
  Entry, Storage, Result, returned, type_mismatch, inc, count_local, put_entry, entry_at,
  fill_cache,
}

abbrev pub which : ℕ → Storage → ℕ × Bool
which p s = (p, s.on_pong p)

unfoldable pub reload : ℕ → Storage → Storage
reload p s = record s { on_pong = update s.on_pong p (not (s.on_pong p)) }

abbrev pub schedule : ℕ → ℕ → Storage → Storage
schedule p interval s = record s { scheduled = (p, interval) ∷ s.scheduled }

-- `execute` of the timer event.
unfoldable pub execute : ℕ → ℕ → Storage → Storage
execute p interval s = schedule p interval (reload p s)

module _ (name : ℕ → String) where
  -- The constructor takes the interval as an `unsigned int`, and begins with `ping`.
  abbrev pub reloadable_entry : ℕ → Entry → ℕ → Entry
  reloadable_entry U e p = record e { type_name = name U; value = some p; reloadable = true }

  unfoldable pub create_reloadable : ℕ → String → ℕ → Entry → Storage → Storage
  create_reloadable U key interval e s =
      let p = s.next_object in
      schedule p (interval % 2 ^ 32) (
        put_entry key (reloadable_entry U e p)
          (record s { next_object = p + 1; on_pong = update s.on_pong p false }))

  unfoldable pub create_shared_reloadable :
      ℕ → ℕ → String → ℕ → Entry → Option ℕ → Storage → Result (ℕ × Bool) × Storage
  create_shared_reloadable t U key interval e none s =
      let p = s.next_object in
      let s' = fill_cache t U key e p (create_reloadable U key interval e s) in
      (returned (which p s'), s')
  create_shared_reloadable t U key interval e (some p) s =
      let s' = record s { shared_hits = inc s.shared_hits } in
      if same e.type_name (name U)
      then (returned (which p s'), fill_cache t U key e p s')
      else (type_mismatch, s')

  unfoldable pub get_or_create_reloadable_from :
      ℕ → ℕ → String → ℕ → Option ℕ → Storage → Result (ℕ × Bool) × Storage
  get_or_create_reloadable_from t U key interval (some p) s = (returned (which p s), s)
  get_or_create_reloadable_from t U key interval none s =
      let e = entry_at (s.storage key) in
      create_shared_reloadable t U key interval e e.value
        (record s { shared_hits = inc s.shared_hits })

  -- `GetOrCreate_Reloadable`, with `U` for `Reloadable<T>`.
  unfoldable pub get_or_create_reloadable :
      ℕ → ℕ → ℕ → List String → Storage → Result (ℕ × Bool) × Storage
  get_or_create_reloadable t U interval tags s =
      let key = make_key (name U) tags in
      let found = s.cached t U key in
      get_or_create_reloadable_from t U key interval found (count_local found s)
