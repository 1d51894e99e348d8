-- ===== src/Seqlock/Alone.antt =====
-- `store` and `load` when no other thread takes a step: they return, and a load gives what was stored.
use godby.Prelude.{
  ℕ, zero, suc, ◌+◌, ◌%◌, ◌≡◌, refl, ◌∙◌, ap, true, false, Option, none, some, arith, ltb,
  if◌then◌else◌, update,
}
use godby.Prelude.Bits.{bit_and-one}
use godby.Seqlock.{
  word, Memory, Writer, Reader, idle, called, writing, trying, copying, writer_step, torn,
  reader_step,
}
use godby.Seqlock.Invariant.{Agree, Agree-next}

module _ {W : Type 0} (width : ℕ) where
  -- The storing thread takes `n` steps, or fewer if `store` returns.
  pub run_store : ℕ → Writer W → Memory W → Option (Memory W)
  run_store zero p m = none
  run_store (suc n) p m =
      let (p', m', finished) = writer_step width p m in
      let rest = run_store n p' m' in if finished then some m' else rest

  abbrev first_of : Option (ℕ → W) → Option (ℕ → W) → Option (ℕ → W)
  first_of none rest = rest
  first_of (some copy) rest = some copy

  pub run_load : ℕ → (ℕ → W) → Reader W → Memory W → Option (ℕ → W)
  run_load zero blank p m = none
  run_load (suc n) blank p m =
      let o = reader_step width blank p m in first_of o.1 (run_load n blank o.0 m)

  -- The words that are left are written.
  store_rest :
      (n i : ℕ) (d : ℕ → W) (seq0 : ℕ) (m : Memory W)
      → n + i ≡ width
      → Agree width i m.value d
      → (m' : Memory W) × (run_store (suc n) (writing d seq0 i) m ≡ some m')
        × (m'.seq ≡ (seq0 + 2) % word)
        × Agree width width m'.value d
  unfolding run_store writer_step
  store_rest zero i d seq0 m e agree =
      rw (last) (
        record m { seq = (seq0 + 2) % word },
        refl,
        refl,
        λ j less. agree j (omega (arith, less, e)),
      )
    where
      last : ltb i width ≡ false
      last = ground arith
  store_rest (suc n) i d seq0 m e agree = rw (more) (
      store_rest n (i + 1) d seq0 (record m { value = update m.value i (d i) }) (omega arith)
        (Agree-next width i m.value d d agree refl))
    where
      more : ltb i width ≡ true
      more = ground arith

  reader_step-copy :
      (blank : ℕ → W) (seq0 i : ℕ) (copy : ℕ → W) (m : Memory W)
      → ltb i width ≡ true
      → reader_step width blank (copying seq0 i copy) m
        ≡ (copying seq0 (i + 1) (update copy i (m.value i)), none)
  unfolding reader_step
  reader_step-copy blank seq0 i copy m more = rw more refl

  reader_step-return :
      (blank : ℕ → W) (seq0 i : ℕ) (copy : ℕ → W) (m : Memory W)
      → ltb i width ≡ false
      → torn seq0 m.seq ≡ false
      → reader_step width blank (copying seq0 i copy) m ≡ (idle, some copy)
  unfolding reader_step
  reader_step-return blank seq0 i copy m last whole = rw (last, whole) refl

  load_rest :
      (n i : ℕ) (blank : ℕ → W) (seq0 : ℕ) (copy : ℕ → W) (m : Memory W)
      → n + i ≡ width
      → seq0 ≡ m.seq
      → m.seq % 2 ≡ 0
      → Agree width i copy m.value
      → (c : ℕ → W) × (run_load (suc n) blank (copying seq0 i copy) m ≡ some c)
        × Agree width width c m.value
  unfolding run_load
  load_rest zero i blank seq0 copy m e same even agree = (
    copy,
    ap (λ o. first_of o.1 (run_load 0 blank o.0 m)) returns,
    λ j less. agree j (omega (arith, less, e)),
  )
    where
      last : ltb i width ≡ false
      last = ground arith

      whole : torn seq0 m.seq ≡ false
      whole = ground (arith, bit_and-one seq0)

      returns : reader_step width blank (copying seq0 i copy) m ≡ (idle, some copy)
      returns = reader_step-return blank seq0 i copy m last whole
  load_rest (suc n) i blank seq0 copy m e same even agree =
      let (c, found, copied) =
        load_rest n (i + 1) blank seq0 (update copy i (m.value i)) m (omega arith) same even
          (Agree-next width i copy m.value m.value agree refl) in
      (
        c,
        ap (λ o. first_of o.1 (run_load (suc n) blank o.0 m))
              (reader_step-copy blank seq0 i copy m more)
            ∙ found,
        copied,
      )
    where
      more : ltb i width ≡ true
      more = ground arith

  -- When no other thread takes a step, a store returns after `width + 3` steps, having moved the counter
  -- on by two, and a load that follows returns, after `width + 2` steps, the words that were stored.
  pub load-store :
      (blank d : ℕ → W) (m : Memory W)
      → m.seq % 2 ≡ 0
      → (m' : Memory W) × (c : ℕ → W) × (run_store (suc (suc (suc width))) (called d) m ≡ some m')
        × (m'.seq ≡ (m.seq + 2) % word)
        × (run_load (suc (suc width)) blank trying m' ≡ some c)
        × Agree width width c d
  unfolding run_store run_load writer_step reader_step
  load-store blank d m even =
      let (m', stored, counter, written) =
        store_rest width 0 d m.seq (record m { seq = (m.seq + 1) % word }) (omega arith)
          (λ j less. absurd (omega arith)) in
      let (c, loaded_it, copied) =
        load_rest width 0 blank m'.seq blank m' (omega arith) refl (omega (arith, counter, even))
          (λ j less. absurd (omega arith)) in
      (m', c, stored, counter, loaded_it, λ j less. copied j less ∙ written j less)
