-- ===== src/SharedStorage/Scan.antt =====
-- The loop of `ConstexprGetType` finds its three marks.
use godby.Prelude.{
  ℕ, ◌+◌, ◌<◌, ◌≡◌, refl, ◌∙◌, ap, Bool, true, false, not, ◌&&◌, [], ◌∷◌, ◌++◌, ◌==◌, length,
  Bool-cases, and_both, inl, inr, arith,
}
use godby.SharedStorage.Text.{String, equals, semicolon, bracket, Marks, mark, scan}

abbrev pub every : (ℕ → Bool) → String → Bool
every test [] = true
every test (c ∷ cs) = test c && every test cs

-- Characters that are no mark, and those that end no name.
abbrev pub unmarked : ℕ → Bool
unmarked c = not (c == equals) && (not (c == semicolon) && not (c == bracket))

abbrev pub inner : ℕ → Bool
inner c = not (c == semicolon) && not (c == bracket)

not-true : (b : Bool) → not b ≡ true → b ≡ false
not-true true h = absurd cc
not-true false h = refl

mark-unmarked : (c i : ℕ) (k : Marks) → unmarked c ≡ true → mark c i k ≡ k
unfolding mark
mark-unmarked c i k h =
    let (e, sb) = and_both _ _ h in
    let (s, b) = and_both _ _ sb in
    rw (not-true (c == equals) e, not-true (c == semicolon) s, not-true (c == bracket) b) refl

mark-inner : (c i : ℕ) (k : Marks) → (k.at_equals == 0) ≡ false → inner c ≡ true → mark c i k ≡ k
unfolding mark
mark-inner c i k set h =
    let (s, b) = and_both _ _ h in
    elim (Bool-cases (c == equals)) [
      | inl e ↦ rw (e, set) refl
      | inr e ↦ rw (e, not-true (c == semicolon) s, not-true (c == bracket) b) refl
    ]

-- The loop passes over what is no mark.
scan-unmarked :
    (seg s : String) (i : ℕ) (k : Marks)
    → every unmarked seg ≡ true
    → (k.at_end == 0) ≡ true
    → scan (seg ++ s) i k ≡ scan s (i + length seg) k
unfolding scan
scan-unmarked [] s i k h going = ap (λ n. scan s n k) {x = i} (omega arith)
scan-unmarked (c ∷ cs) s i k h going =
    let (here, rest) = and_both _ _ h in
    rw going (
      ap (scan (cs ++ s) (i + 1)) (mark-unmarked c i k here)
      ∙ scan-unmarked cs s (i + 1) k rest going
      ∙ ap (λ n. scan s n k) {x = i + 1 + length cs} (omega arith))

scan-inner :
    (seg s : String) (i : ℕ) (k : Marks)
    → (k.at_equals == 0) ≡ false
    → every inner seg ≡ true
    → (k.at_end == 0) ≡ true
    → scan (seg ++ s) i k ≡ scan s (i + length seg) k
unfolding scan
scan-inner [] s i k set h going = ap (λ n. scan s n k) {x = i} (omega arith)
scan-inner (c ∷ cs) s i k set h going =
    let (here, rest) = and_both _ _ h in
    rw going (
      ap (scan (cs ++ s) (i + 1)) (mark-inner c i k set here)
      ∙ scan-inner cs s (i + 1) k set rest going
      ∙ ap (λ n. scan s n k) {x = i + 1 + length cs} (omega arith))

-- After the end mark the loop stops.
scan-closed : (s : String) (i : ℕ) (k : Marks) → (k.at_end == 0) ≡ false → scan s i k ≡ k
unfolding scan
scan-closed [] i k h = refl
scan-closed (c ∷ cs) i k h = rw h refl

-- The text that the compiler writes for a type of this name.
abbrev pub text : String → String → String → String → String → String → String
text before blanks name blanks' after rest =
    before
    ++ (equals ∷ ((blanks ++ (name ++ blanks')) ++ (semicolon ∷ (after ++ (bracket ∷ rest)))))

module _ (before blanks name blanks' after rest : String) (pos : 0 < length before)
    (plain : every unmarked before ≡ true)
    (middle : every inner (blanks ++ (name ++ blanks')) ≡ true)
    (tail : every inner after ≡ true) where
  abbrev pub start : ℕ
  start = length before + 1

  abbrev pub end : ℕ
  end = start + length (blanks ++ (name ++ blanks'))

  abbrev pub none_yet : Marks
  none_yet = record { at_equals = 0; at_semicolon = 0; at_end = 0 }

  abbrev pub found : Marks
  found = record { at_equals = length before; at_semicolon = end; at_end = end + 1 + length after }

  pub set : (length before == 0) ≡ false
  set = ground arith

  -- The loop finds the three marks.
  pub scan-text : scan (text before blanks name blanks' after rest) 0 none_yet ≡ found
  unfolding scan mark
  scan-text =
      scan-unmarked before _ 0 none_yet plain refl
      ∙ ap
          (λ n.
            scan
              (equals
                ∷ ((blanks ++ (name ++ blanks')) ++ (semicolon ∷ (after ++ (bracket ∷ rest)))))
              n none_yet)
          {x = 0 + length before} {y = length before} (omega arith)
      ∙ scan-inner (blanks ++ (name ++ blanks')) _ start
          (record none_yet { at_equals = length before }) set middle refl
      ∙ scan-inner after _ (end + 1)
          (record none_yet { at_equals = length before; at_semicolon = end }) set tail refl
      ∙ scan-closed rest (end + 1 + length after + 1) found (ground arith)
