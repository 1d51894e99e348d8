-- ===== src/AtomicOptional/Tests.antt =====
-- A thread that loads while another empties the optional.
use mathlib.Core.List.{Memᴰ}
use godby.Prelude.{ℕ, ◌≡◌, refl, some}
use godby.AtomicOptional.{
  AtomicOptional, loaded, create_with, checking, access, call_store_nullopt, set_thread, load,
  store_nullopt, run, Reach, full, next,
}
use godby.AtomicOptional.Loads.{load_lem}

abbrev go : ℕ → AtomicOptional → AtomicOptional
go t s = access 0 t (s.thread t) s

-- Thread 0 has found that there is a value before thread 1 empties the optional, and loads after it.
abbrev both : AtomicOptional
both = call_store_nullopt 0 (set_thread (create_with 7) 0 checking) 1

abbrev end : AtomicOptional
end = go 0 (go 1 (go 1 (go 0 both)))

end-Reach : Reach 0 end
unfolding access
end-Reach =
    next
      (next
        (next (next (next (next (full 7) (load 0 refl)) (store_nullopt 1 refl)) (run 0)) (run 1))
        (run 1))
      (run 0)

-- The value that it returns was given to no constructor and to no call of store.
end-loaded : end.thread 0 ≡ loaded (some 0)
unfolding access
end-loaded = refl

load_lem_example : Memᴰ 0 end.stored
load_lem_example = load_lem 0 end-Reach 0 (some 0) end-loaded
