-- ===== src/Seqlock/Load.antt =====
-- What a load returns, under every interleaving.
use godby.Prelude.{
  ℕ, ◌+◌, ◌-◌, ◌*◌, ◌^◌, ◌≤◌, ◌<◌, ◌≡◌, refl, false, some, arith, inl, inr, ◌==◌, if◌then◌else◌,
  Bool-cases,
}
use godby.Seqlock.{
  word, Writer, idle, called, loaded, writing, writer_step, reader_step, System, desired_or,
  step_writer, step_reader, Step, store, load, writer, reader, start, Reach, begin, next,
}
use godby.Seqlock.Invariant.{
  Agree, WriterOk, ReaderOk, Valid, settled, moved_on, writer_step-Written, seen,
  reader_step-ReaderOk,
}

module _ {W : Type 0} (width : ℕ) (blank : ℕ → W) where
  writer_step-Valid :
      (s : System W)
      → s.stores * 2 + 2 < word
      → Valid width s
      → Valid width (step_writer width blank s)
  unfolding step_writer
  writer_step-Valid s small v =
      let o = writer_step-Written width s.writer s.memory s.current s.stores small v.writer in
      record {
        writer = o.ok;
        readers = λ r. elim o.change [
          | inl (same, none_done) ↦
              seen width (s.readers r) s.memory _ s.current _ (v.readers r) same (kept none_done)
          | inr up ↦ moved_on width (s.readers r) s.memory _ s.current _ (v.readers r) (inl up)
        ];
      }
    where
      kept :
          (writer_step width s.writer s.memory).2 ≡ false
          → s.current ≡ (
              if (writer_step width s.writer s.memory).2
              then desired_or s.writer s.current
              else s.current)
      kept h = rw h refl

  reader_step-Valid :
      (s : System W) (r : ℕ) → Valid width s → Valid width (step_reader width blank r s)
  unfolding step_reader
  reader_step-Valid s r v = record {
    writer = v.writer;
    readers = λ x. elim (Bool-cases (r == x)) [
      | inl same ↦
          rw same
            (reader_step-ReaderOk width blank (s.readers r) s.memory s.current
              (settled width s.writer s.memory s.current s.stores v.writer) (v.readers r)).0
      | inr other ↦ rw other (v.readers x)
    ];
  }

  start-Valid : (v : ℕ → W) → Valid width (start width blank v)
  unfolding WriterOk ReaderOk
  start-Valid v = record { writer = (refl, λ j less. refl); readers = λ r. tt }

  -- No step undoes a store.
  stores_up : {s s' : System W} → Step width blank s s' → s.stores ≤ s'.stores
  unfolding step_writer step_reader
  stores_up (store s d h) = omega arith
  stores_up (load s r h) = omega arith
  stores_up (writer s) = ground arith
  stores_up (reader s r) = omega arith

  Step-Valid :
      {s s' : System W}
      → Step width blank s s'
      → s.stores * 2 + 2 < word
      → Valid width s
      → Valid width s'
  unfolding WriterOk ReaderOk
  Step-Valid (store s d h) small v = record {
    writer = called_ok s.writer h v.writer;
    readers = v.readers;
  }
    where
      called_ok :
          (p : Writer W)
          → p ≡ idle
          → WriterOk width p s.memory s.current s.stores
          → (s.memory.seq ≡ s.stores * 2) × Agree width width s.memory.value s.current
      called_ok idle h ok = ok
      called_ok (called d) h ok = absurd cc
      called_ok (loaded d seq0) h ok = absurd cc
      called_ok (writing d seq0 i) h ok = absurd cc
  Step-Valid (load s r h) small v = record {
    writer = v.writer;
    readers = λ x. elim (Bool-cases (r == x)) [
      | inl same ↦ rw same tt
      | inr other ↦ rw other (v.readers x)
    ];
  }
  Step-Valid (writer s) small v = writer_step-Valid s small v
  Step-Valid (reader s r) small v = reader_step-Valid s r v

  fewer :
      {s s' : System W} → Step width blank s s' → s'.stores * 2 + 2 < word → s.stores * 2 + 2 < word
  fewer step small = omega (arith, small, stores_up step)

  Reach-Valid : {s : System W} → Reach width blank s → s.stores * 2 + 2 < word → Valid width s
  Reach-Valid (begin v) small = start-Valid v
  Reach-Valid (next before step) small =
      Step-Valid step (fewer step small) (Reach-Valid before (fewer step small))

-- However one storing thread and any number of loading threads interleave, while fewer than 2 ^ 63 - 1
-- stores have finished: the step at which a load returns gives, on every word, the value of the last
-- store that has finished, and none of a store in progress.
pub load_current :
    {W : Type 0} (width : ℕ) (blank : ℕ → W) {s : System W}
    → Reach width blank s
    → s.stores < 2 ^ 63 - 1
    → (r : ℕ) (copy : ℕ → W) → (reader_step width blank (s.readers r) s.memory).1 ≡ some copy
    → (j : ℕ) → j < width
    → copy j ≡ s.current j
load_current width blank {s} reach small r copy returns =
    let v = Reach-Valid width blank reach (omega arith) in
    (reader_step-ReaderOk width blank (s.readers r) s.memory s.current
        (settled width s.writer s.memory s.current s.stores v.writer) (v.readers r)).1
      copy returns
