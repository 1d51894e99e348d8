-- ===== src/Seqlock/Invariant.antt =====
-- What holds between the steps of the storing thread and of the loading threads.
use godby.Prelude.{
  ℕ, ◌+◌, ◌*◌, ◌%◌, ◌≤◌, ◌<◌, ◌≡◌, refl, ◌∙◌, ap, subst, Bool, false, some, arith, ◌⊎◌, inl, inr,
  ltb, ltb→lt, ltb_false→le, ◌==◌, ==_iff, if◌then◌else◌, Bool-cases, update,
}
use godby.Prelude.Bits.{bit_and-one}
use godby.Seqlock.{
  word, Memory, Writer, Reader, idle, called, loaded, writing, trying, copying, writer_step, torn,
  reader_step, System, desired_or,
}

torn-false : (a b : ℕ) → torn a b ≡ false → (a ≡ b) × (a % 2 ≡ 0)
torn-false a b h = ground (arith, bit_and-one a)

module _ {W : Type 0} (width : ℕ) where
  -- Two values agree on their words below `n`.
  abbrev pub Agree : ℕ → (ℕ → W) → (ℕ → W) → Type 0
  Agree n v w = (j : ℕ) → j < n → v j ≡ w j

  -- The counter is twice the number of finished stores, and one more while words are written.
  unfoldable pub WriterOk : Writer W → Memory W → (ℕ → W) → ℕ → Type 0
  WriterOk idle m current n = (m.seq ≡ n * 2) × Agree width m.value current
  WriterOk (called d) m current n = (m.seq ≡ n * 2) × Agree width m.value current
  WriterOk (loaded d seq0) m current n =
      (seq0 ≡ n * 2) × (m.seq ≡ n * 2) × Agree width m.value current
  WriterOk (writing d seq0 i) m current n = (seq0 ≡ n * 2) × (m.seq ≡ n * 2 + 1) × Agree i m.value d

  -- The words that a load has copied since it read an even counter are those of the current value, if
  -- the counter is still the same.
  unfoldable pub ReaderOk : Reader W → Memory W → (ℕ → W) → Type 0
  ReaderOk idle m current = Unit
  ReaderOk trying m current = Unit
  ReaderOk (copying seq0 i copy) m current =
      (seq0 ≤ m.seq) × (seq0 ≡ m.seq → seq0 % 2 ≡ 0 → Agree i copy current)

  pub record Valid (s : System W) : Type 0 where
    pub writer : WriterOk s.writer s.memory s.current s.stores
    pub readers : (r : ℕ) → ReaderOk (s.readers r) s.memory s.current

  -- With an even counter no words are being written.
  pub settled :
      (p : Writer W) (m : Memory W) (v : ℕ → W) (n : ℕ)
      → WriterOk p m v n
      → m.seq % 2 ≡ 0
      → Agree width m.value v
  unfolding WriterOk
  settled idle m v n (e, agree) even = agree
  settled (called d) m v n (e, agree) even = agree
  settled (loaded d seq0) m v n (e0, e, agree) even = agree
  settled (writing d seq0 i) m v n (e0, e, agree) even = absurd (omega (arith, e, even))

  -- A reader is not disturbed by a step that moves the counter on, or that finds it odd.
  pub moved_on :
      (p : Reader W) (m m' : Memory W) (v v' : ℕ → W)
      → ReaderOk p m v
      → (m.seq < m'.seq) ⊎ ((m'.seq ≡ m.seq) × (m.seq % 2 ≡ 1))
      → ReaderOk p m' v'
  unfolding ReaderOk
  moved_on idle m m' v v' h c = tt
  moved_on trying m m' v v' h c = tt
  moved_on (copying seq0 i copy) m m' v v' (le, agree) c =
      (omega (arith, le, c), λ same even. absurd (omega (arith, le, c, same, even)))

  -- One word more of a copy.
  pub Agree-next :
      (i : ℕ) (c v w : ℕ → W) → Agree i c v → w i ≡ v i → Agree (i + 1) (update c i (w i)) v
  Agree-next i c v w agree here j less = elim (Bool-cases (i == j)) [
    | inl same ↦ let e : i ≡ j = (==_iff i j).0 same in rw same (here ∙ ap v e)
    | inr other ↦ rw other (agree j (below other))
  ]
    where
      below : (i == j) ≡ false → j < i
      below other = ground arith

  -- After a step of the storing thread: what holds of it, and what a loading thread can see.
  pub record Written (p : Writer W) (m : Memory W) (v : ℕ → W) (n : ℕ)
      (o : Writer W × Memory W × Bool) : Type 0 where
    pub ok : WriterOk o.0 o.1 (if o.2 then desired_or p v else v) (if o.2 then n + 1 else n)
    pub change : ((o.1.seq ≡ m.seq) × (o.2 ≡ false)) ⊎ (m.seq < o.1.seq)

  pub writer_step-Written :
      (p : Writer W) (m : Memory W) (v : ℕ → W) (n : ℕ)
      → n * 2 + 2 < word
      → WriterOk p m v n
      → Written p m v n (writer_step width p m)
  unfolding writer_step WriterOk
  writer_step-Written idle m v n small ok = record { ok = ok; change = inl (refl, refl) }
  writer_step-Written (called d) m v n small (e, agree) = record {
    ok = (e, e, agree);
    change = inl (refl, refl);
  }
  writer_step-Written (loaded d seq0) m v n small (e0, e, agree) = record {
    ok = (e0, omega (arith, e0, e), λ j less. absurd (omega arith));
    change = inr (omega (arith, e0, e));
  }
  writer_step-Written (writing d seq0 i) m v n small (e0, e, agree) =
      elim (Bool-cases (ltb i width)) [
        | inl more ↦ rw more (record {
          ok = (e0, e, Agree-next i m.value d d agree refl);
          change = inl (refl, refl);
        })
        | inr done ↦ rw done (record {
          ok = (
            omega (arith, e0),
            λ j less. agree j (omega (arith, less, ltb_false→le i width done)),
          );
          change = inr (omega (arith, e0, e));
        })
      ]

  pub seen :
      (p : Reader W) (m m' : Memory W) (v v' : ℕ → W)
      → ReaderOk p m v
      → (m'.seq ≡ m.seq)
      → v ≡ v'
      → ReaderOk p m' v'
  unfolding ReaderOk
  seen idle m m' v v' ok e same = tt
  seen trying m m' v v' ok e same = tt
  seen (copying seq0 i copy) m m' v v' (le, agree) e same =
      (omega (arith, le, e), λ h even. subst (Agree i copy) same (agree (omega (arith, h, e)) even))

  -- A step of a loading thread; at the end of `load`, the copy is the current value.
  pub reader_step-ReaderOk :
      (blank : ℕ → W) (p : Reader W) (m : Memory W) (v : ℕ → W)
      → (m.seq % 2 ≡ 0 → Agree width m.value v)
      → ReaderOk p m v
      → ReaderOk (reader_step width blank p m).0 m v
        × ((copy : ℕ → W) → (reader_step width blank p m).1 ≡ some copy → Agree width copy v)
  unfolding reader_step ReaderOk
  reader_step-ReaderOk blank idle m v even ok = (tt, λ copy h. absurd cc)
  reader_step-ReaderOk blank trying m v even ok =
      ((omega arith, λ e h j less. absurd (omega arith)), λ copy h. absurd cc)
  reader_step-ReaderOk blank (copying seq0 i copy) m v even (le, agree) =
      elim (Bool-cases (ltb i width)) [
        | inl more ↦ rw more (
          (
            le,
            λ same h.
                Agree-next i copy v m.value (agree same h)
                  (even (omega (arith, same, h)) i (ltb→lt i width more)),
          ),
          λ c h. absurd cc,
        )
        | inr done ↦ elim (Bool-cases (torn seq0 m.seq)) [
          | inl again ↦ rw (done, again) (tt, λ c h. absurd cc)
          | inr whole ↦
              let (same, h) = torn-false seq0 m.seq whole in
              rw (done, whole)
                (
                  tt,
                  λ c e.
                      subst (λ x. Agree width x v) (some_inj e)
                        (λ j less. agree same h j (omega (arith, less, ltb_false→le i width done))),
                )
        ]
      ]
    where
      some_inj : {a b : ℕ → W} → some a ≡ some b → a ≡ b
      some_inj e = cc
