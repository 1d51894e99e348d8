-- ===== src/Seqlock/Tests.antt =====
-- A load that runs into a store, and the theorems at concrete inputs.
use godby.Prelude.{ℕ, zero, suc, ◌==◌, ◌+◌, ◌%◌, ◌≡◌, refl, some, arith, if◌then◌else◌}
use godby.Seqlock.{
  word, Memory, Reader, idle, called, trying, copying, writer_step, reader_step, System, store,
  load, writer, reader, start, Reach, begin, next, step_writer, step_reader,
}
use godby.Seqlock.Invariant.{Agree}
use godby.Seqlock.Load.{load_current}
use godby.Seqlock.Alone.{run_store, run_load, load-store}

abbrev blank : ℕ → ℕ
blank j = 0

abbrev old : ℕ → ℕ
old j = j + 10

abbrev new : ℕ → ℕ
new j = j + 20

writer_steps : ℕ → System ℕ → System ℕ
writer_steps zero s = s
writer_steps (suc n) s = step_writer 2 blank (writer_steps n s)

reader_steps : ℕ → System ℕ → System ℕ
reader_steps zero s = s
reader_steps (suc n) s = step_reader 2 blank 0 (reader_steps n s)

writer_steps-Reach : (n : ℕ) {s : System ℕ} → Reach 2 blank s → Reach 2 blank (writer_steps n s)
unfolding writer_steps
writer_steps-Reach zero h = h
writer_steps-Reach (suc n) {s} h = next (writer_steps-Reach n h) (writer (writer_steps n s))

reader_steps-Reach : (n : ℕ) {s : System ℕ} → Reach 2 blank s → Reach 2 blank (reader_steps n s)
unfolding reader_steps
reader_steps-Reach zero h = h
reader_steps-Reach (suc n) {s} h = next (reader_steps-Reach n h) (reader (reader_steps n s) 0)

-- Thread 0 reads the counter and one word, a store of `new` runs, and the load goes round again.
abbrev loading : System ℕ
loading = record (start {W = ℕ} 2 blank old) { readers = λ r. if 0 == r then trying else idle }

abbrev one_word : System ℕ
one_word = reader_steps 2 loading

abbrev stored : System ℕ
stored = writer_steps 6 (record one_word { writer = called new })

abbrev again : System ℕ
again = reader_steps 5 stored

again-Reach : Reach 2 blank again
unfolding writer_steps reader_steps step_writer step_reader
again-Reach = reader_steps-Reach 5 (
    writer_steps-Reach 6 (
      next (reader_steps-Reach 2 (next (begin old) (load (start {W = ℕ} 2 blank old) 0 refl)))
        (store one_word new refl)))

-- What thread 0 has copied.
abbrev copied : Reader ℕ → ℕ → ℕ
copied idle j = 0
copied trying j = 0
copied (copying seq0 i copy) j = copy j

load_current_example : copied (again.readers 0) 1 ≡ again.current 1
unfolding writer_steps reader_steps step_writer step_reader writer_step reader_step
load_current_example =
    load_current 2 blank again-Reach (omega arith) 0 (copied (again.readers 0)) refl 1 (omega arith)

load-store_example :
    (m : Memory ℕ) × (c : ℕ → ℕ) × (run_store 2 5 (called new) (record { seq = 4; value = old })
      ≡ some m)
    × (m.seq ≡ 6 % word)
    × (run_load 2 4 blank trying m ≡ some c)
    × Agree 2 2 c new
load-store_example = load-store 2 blank new (record { seq = 4; value = old }) refl
