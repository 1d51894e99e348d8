-- ===== src/SharedStorage/Trim.antt =====
-- The loops of `ConstexprGetType` that take the blanks off the name.
use godby.Prelude.{
  ℕ, zero, suc, ◌+◌, ◌-◌, ◌≤◌, ◌<◌, ◌≡◌, refl, sym, ◌∙◌, ap, ap₂, Bool, true, false, [], ◌∷◌, ◌++◌,
  append_assoc, length, get_or, and_both, arith,
}
use godby.SharedStorage.Keys.{drop_append}
use godby.SharedStorage.Text.{
  String, constexpr_is_space, Marks, skip_front, skip_back, take, drop, trimmed,
}
use godby.SharedStorage.Scan.{every}

get_append : (p s : String) (j : ℕ) → get_or (p ++ s) (length p + j) 0 ≡ get_or s j 0
get_append [] s j = ap (λ n. get_or s n 0) {y = j} (omega arith)
get_append (c ∷ p) s j =
    ap (λ n. get_or (c ∷ (p ++ s)) n 0) {y = suc (length p + j)} (omega arith) ∙ get_append p s j

take_append : (name s : String) → take (length name) (name ++ s) ≡ name
unfolding take
take_append [] s = refl
take_append (c ∷ name) s = ap (λ r. c ∷ r) (take_append name s)

get_every :
    (test : ℕ → Bool) (seg s : String) (j : ℕ)
    → every test seg ≡ true
    → j < length seg
    → test (get_or (seg ++ s) j 0) ≡ true
get_every test [] s j h lt = absurd (omega arith)
get_every test (c ∷ seg) s zero h lt = (and_both _ _ h).0
get_every test (c ∷ seg) s (suc j) h lt = get_every test seg s j (and_both _ _ h).1 (omega arith)

pub length_append : (p s : String) → length (p ++ s) ≡ length p + length s
length_append [] s = omega arith
length_append (c ∷ p) s = omega (arith, length_append p s)

get_within : (seg s : String) (j : ℕ) → j < length seg → get_or (seg ++ s) j 0 ≡ get_or seg j 0
get_within [] s j lt = absurd (omega arith)
get_within (c ∷ seg) s zero lt = refl
get_within (c ∷ seg) s (suc j) lt = get_within seg s j (omega arith)

-- The loops stop at the first character that is no blank.
skip_front_lem :
    (info : String) (a m n : ℕ)
    → m ≤ n
    → ((j : ℕ) → j < m → constexpr_is_space (get_or info (a + j) 0) ≡ true)
    → (m < n → constexpr_is_space (get_or info (a + m) 0) ≡ false)
    → skip_front info n a ≡ a + m
unfolding skip_front
skip_front_lem info a zero zero le blank stop = omega arith
skip_front_lem info a zero (suc n) le blank stop =
    rw
      (ap (λ i. constexpr_is_space (get_or info i 0)) {x = a} {y = a + 0} (omega arith)
        ∙ stop (omega arith))
      (omega arith)
skip_front_lem info a (suc m) zero le blank stop = absurd (omega arith)
skip_front_lem info a (suc m) (suc n) le blank stop =
    rw
      (ap (λ i. constexpr_is_space (get_or info i 0)) {x = a} {y = a + 0} (omega arith)
        ∙ blank 0 (omega arith))
      (skip_front_lem info (a + 1) m n (omega arith)
          (λ j lt.
            ap (λ i. constexpr_is_space (get_or info i 0)) {x = a + 1 + j} {y = a + suc j}
              (omega arith)
            ∙ blank (suc j) (omega arith))
          (λ lt.
            ap (λ i. constexpr_is_space (get_or info i 0)) {x = a + 1 + m} {y = a + suc m}
              (omega arith)
            ∙ stop (omega arith))
        ∙ omega arith)

skip_back_lem :
    (info : String) (a m n : ℕ)
    → m < n
    → ((j : ℕ) → j < m → constexpr_is_space (get_or info (a + 1 + j) 0) ≡ true)
    → constexpr_is_space (get_or info a 0) ≡ false
    → skip_back info n (a + 1 + m) ≡ a + 1
unfolding skip_back
skip_back_lem info a m zero lt blank stop = absurd (omega arith)
skip_back_lem info a zero (suc n) lt blank stop =
    rw
      (ap (λ i. constexpr_is_space (get_or info i 0)) {x = a + 1 + 0 - 1} {y = a} (omega arith)
        ∙ stop)
      (omega arith)
skip_back_lem info a (suc m) (suc n) lt blank stop =
    rw
      (ap (λ i. constexpr_is_space (get_or info i 0)) {x = a + 1 + suc m - 1} {y = a + 1 + m}
          (omega arith)
        ∙ blank m (omega arith))
      (ap (skip_back info n) {x = a + 1 + suc m - 1} {y = a + 1 + m} (omega arith)
        ∙ skip_back_lem info a m n (omega arith) (λ j h. blank j (omega arith)) stop)

-- The cut: what stands between the marks, without the blanks.
module _ (p blanks name blanks' q : String) (front : every constexpr_is_space blanks ≡ true)
    (back : every constexpr_is_space blanks' ≡ true) (some_name : 0 < length name)
    (first : constexpr_is_space (get_or name 0 0) ≡ false)
    (last : constexpr_is_space (get_or name (length name - 1) 0) ≡ false) where
  abbrev pub whole : String
  whole = p ++ (blanks ++ (name ++ (blanks' ++ q)))

  abbrev pub from : ℕ
  from = length p + length blanks

  abbrev pub stop : ℕ
  stop = length p + length (blanks ++ (name ++ blanks'))

  stop_lem : stop ≡ from + length name + length blanks'
  stop_lem = omega (arith, length_append blanks (name ++ blanks'), length_append name blanks')

  in_name : (j : ℕ) → j < length name → get_or whole (from + j) 0 ≡ get_or name j 0
  in_name j lt =
      ap (λ i. get_or whole i 0) {x = from + j} {y = length p + (length blanks + j)} (omega arith)
      ∙ get_append p _ (length blanks + j)
      ∙ get_append blanks _ j
      ∙ get_within name _ j lt

  skip_front-from : skip_front whole (stop - length p) (length p) ≡ from
  skip_front-from =
      skip_front_lem whole (length p) (length blanks) (stop - length p) (omega (arith, stop_lem))
        (λ j lt.
          ap constexpr_is_space (get_append p _ j)
          ∙ get_every constexpr_is_space blanks _ j front lt)
        (λ lt.
          ap (λ i. constexpr_is_space (get_or whole i 0)) {x = from} {y = from + 0} (omega arith)
          ∙ ap constexpr_is_space (in_name 0 some_name)
          ∙ first)

  skip_back-from : skip_back whole (stop - from) stop ≡ from + length name
  skip_back-from =
      ap (skip_back whole (stop - from)) {y = from + (length name - 1) + 1 + length blanks'}
        (omega (arith, stop_lem))
      ∙ skip_back_lem whole (from + (length name - 1)) (length blanks') (stop - from)
          (omega (arith, stop_lem))
          (λ j lt.
            ap (λ i. constexpr_is_space (get_or whole i 0)) {x = from + (length name - 1) + 1 + j}
              {y = length p + (length blanks + (length name + j))} (omega arith)
            ∙ ap constexpr_is_space (
                get_append p _ (length blanks + (length name + j))
                ∙ get_append blanks _ (length name + j)
                ∙ get_append name _ j)
            ∙ get_every constexpr_is_space blanks' q j back lt)
          (ap constexpr_is_space (in_name (length name - 1) (omega arith)) ∙ last)
      ∙ omega arith

  cut-name : take (length name) (drop from whole) ≡ name
  cut-name =
      ap (λ s. take (length name) (drop from s))
        (sym (append_assoc p blanks (name ++ (blanks' ++ q))))
      ∙ ap (λ n. take (length name) (drop n ((p ++ blanks) ++ (name ++ (blanks' ++ q)))))
          (sym (length_append p blanks))
      ∙ ap (take (length name)) (drop_append (p ++ blanks) (name ++ (blanks' ++ q)))
      ∙ take_append name (blanks' ++ q)

  pub trimmed-name :
      (k : Marks) → k.at_equals + 1 ≡ length p → k.at_semicolon ≡ stop → trimmed whole k ≡ name
  unfolding trimmed
  trimmed-name k e f =
      ap₂
        (λ a b.
          take (skip_back whole (b - skip_front whole (b - a) a) b - skip_front whole (b - a) a)
            (drop (skip_front whole (b - a) a) whole))
        e f
      ∙ ap (λ a. take (skip_back whole (stop - a) stop - a) (drop a whole)) skip_front-from
      ∙ ap (λ b. take (b - from) (drop from whole)) skip_back-from
      ∙ ap (λ n. take n (drop from whole)) {x = from + length name - from} {y = length name}
          (omega arith)
      ∙ cut-name
