-- ===== src/Seqlock.antt =====
-- godby/include/godby/Seqlock.h under interleaving: one thread that stores and any number of threads
-- that load. A value is `width` words, which the copies read and write one at a time, in order.
-- Atomic operations are sequentially consistent here, and the fences keep the copies in their place.
pub mod Invariant
pub mod Load
pub mod Alone
mod Tests
use godby.Prelude.{
  ℕ, zero, suc, ◌+◌, ◌%◌, ◌^◌, ◌<◌, ◌≡◌, bit_and, Bool, true, false, not, ◌&&◌, ◌||◌, Option, none,
  some, ltb, ◌==◌, if◌then◌else◌, update,
}

abbrev pub word : ℕ
word = 2 ^ 64

-- `seq0 != seq1 || seq0 & 1`
abbrev pub torn : ℕ → ℕ → Bool
torn seq0 seq1 = not (seq0 == seq1) || (bit_and seq0 1 == 1)

module _ (W : Type 0) where
  -- `M_seq` and the words of `M_value`.
  pub record Memory : Type 0 where
    pub seq : ℕ
    pub value : ℕ → W

  -- Where the storing thread stands in `store`, with its locals.
  pub data Writer : Type 0 where
    idle : Writer
    called : (desired : ℕ → W) → Writer
    loaded : (desired : ℕ → W) (seq0 : ℕ) → Writer
    writing : (desired : ℕ → W) (seq0 : ℕ) (i : ℕ) → Writer  -- the words below `i` are written

  -- Where a loading thread stands in `load`.
  pub data Reader : Type 0 where
    idle : Reader
    trying : Reader  -- at the top of the loop
    copying : (seq0 : ℕ) (i : ℕ) (copy : ℕ → W) → Reader  -- the words below `i` are read

module _ {W : Type 0} (width : ℕ) where
  -- One step of `store`; the last part tells whether it returns.
  unfoldable pub writer_step : Writer W → Memory W → Writer W × Memory W × Bool
  writer_step idle m = (idle, m, false)
  writer_step (called d) m = (loaded d m.seq, m, false)
  writer_step (loaded d seq0) m = (writing d seq0 0, record m { seq = (seq0 + 1) % word }, false)
  writer_step (writing d seq0 i) m =
      if ltb i width
      then (writing d seq0 (i + 1), record m { value = update m.value i (d i) }, false)
      else (idle, record m { seq = (seq0 + 2) % word }, true)

  -- One step of `load`, with what it returns; `blank` is the copy before it is written.
  unfoldable pub reader_step : (ℕ → W) → Reader W → Memory W → Reader W × Option (ℕ → W)
  reader_step blank idle m = (idle, none)
  reader_step blank trying m = (copying m.seq 0 blank, none)
  reader_step blank (copying seq0 i copy) m =
      if ltb i width
      then (copying seq0 (i + 1) (update copy i (m.value i)), none)
      else (if torn seq0 m.seq then (trying, none) else (idle, some copy))

-- All threads; `current` is what the last finished store has stored, and `stores` how many have
-- finished. Neither is part of the program.
pub record System (W : Type 0) : Type 0 where
  pub memory : Memory W
  pub writer : Writer W
  pub readers : ℕ → Reader W
  pub current : ℕ → W
  pub stores : ℕ

-- What a store in progress stores.
abbrev pub desired_or : {W : Type 0} → Writer W → (ℕ → W) → ℕ → W
desired_or idle v = v
desired_or (called d) v = d
desired_or (loaded d seq0) v = d
desired_or (writing d seq0 i) v = d

module _ {W : Type 0} (width : ℕ) (blank : ℕ → W) where
  unfoldable pub step_writer : System W → System W
  step_writer s =
      let (writer, memory, finished) = writer_step width s.writer s.memory in
      record s {
        writer = writer;
        memory = memory;
        current = if finished then desired_or s.writer s.current else s.current;
        stores = if finished then s.stores + 1 else s.stores;
      }

  unfoldable pub step_reader : ℕ → System W → System W
  step_reader r s = record s {
    readers = update s.readers r (reader_step width blank (s.readers r) s.memory).0;
  }

  -- A call begins, or a thread takes a step.
  pub data Step : System W → System W → Type 0 where
    store : (s : System W) (d : ℕ → W) → s.writer ≡ idle → Step s (record s { writer = called d })
    load :
        (s : System W) (r : ℕ)
        → s.readers r ≡ idle
        → Step s (record s { readers = update s.readers r trying })
    writer : (s : System W) → Step s (step_writer s)
    reader : (s : System W) (r : ℕ) → Step s (step_reader r s)

  -- A lock just constructed, with any content.
  abbrev pub start : (ℕ → W) → System W
  start v = record {
    memory = record { seq = 0; value = v };
    writer = idle;
    readers = λ r. idle;
    current = v;
    stores = 0;
  }

  pub data Reach : System W → Type 0 where
    begin : (v : ℕ → W) → Reach (start v)
    next : {s s' : System W} → Reach s → Step s s' → Reach s'
