-- ===== src/SharedStorage/TypeName.antt =====
-- `ConstexprGetType` finds the name in what the compiler writes.
use godby.Prelude.{
  ◌+◌, ◌-◌, ◌<◌, ◌≡◌, sym, ◌∙◌, ap, true, false, ◌||◌, [], ◌∷◌, ◌++◌, append_assoc, if◌then◌else◌,
  ◌==◌, length, get_or, arith,
}
use godby.SharedStorage.Text.{
  String, equals, semicolon, bracket, constexpr_is_space, Marks, trimmed, constexpr_get_type,
}
use godby.SharedStorage.Scan.{every, unmarked, inner, text, set, scan-text, found}
use godby.SharedStorage.Trim.{length_append, trimmed-name}

-- The text, with the parts in another order of brackets.
whole-text :
    (before blanks name blanks' after rest : String)
    → text before blanks name blanks' after rest
      ≡ (before ++ (equals ∷ []))
        ++ (blanks ++ (name ++ (blanks' ++ (semicolon ∷ (after ++ (bracket ∷ rest))))))
whole-text before blanks name blanks' after rest =
    ap (λ s. before ++ (equals ∷ s))
      (append_assoc blanks (name ++ blanks') q
        ∙ ap (λ s. blanks ++ s) (append_assoc name blanks' q))
    ∙ sym (append_assoc before (equals ∷ []) (blanks ++ (name ++ (blanks' ++ q))))
  where
    q : String
    q = semicolon ∷ (after ++ (bracket ∷ rest))

-- In a text with an equals sign, not at its start, before which there is no mark, and then the name of a type
-- between blanks, a semicolon, and after it a closing bracket, where the name and what stands up to the bracket
-- have no semicolon or closing bracket, and the name neither begins nor ends with a blank,
-- ConstexprGetType finds the name.
pub constexpr_get_type_lem :
    (before blanks name blanks' after rest : String)
    → 0 < length before
    → every unmarked before ≡ true
    → every inner (blanks ++ (name ++ blanks')) ≡ true
    → every inner after ≡ true
    → every constexpr_is_space blanks ≡ true
    → every constexpr_is_space blanks' ≡ true
    → 0 < length name
    → constexpr_is_space (get_or name 0 0) ≡ false
    → constexpr_is_space (get_or name (length name - 1) 0) ≡ false
    → constexpr_get_type (text before blanks name blanks' after rest) ≡ name
unfolding constexpr_get_type
constexpr_get_type_lem before blanks name blanks' after rest pos plain middle tail front back
      some_name first last =
    ap
      (λ k.
        if (k.at_equals == 0) || ((k.at_semicolon == 0) || (k.at_end == 0))
        then []
        else trimmed (text before blanks name blanks' after rest) k)
      (scan-text before blanks name blanks' after rest pos plain middle tail)
    ∙ rw (set before blanks name blanks' after rest pos plain middle tail, later, latest)
        (ap (λ s. trimmed s marks) (whole-text before blanks name blanks' after rest)
          ∙ trimmed-name (before ++ (equals ∷ [])) blanks name blanks'
              (semicolon ∷ (after ++ (bracket ∷ rest))) front back some_name first last marks
              (sym (length_append before (equals ∷ [])))
              (ap (λ n. n + length (blanks ++ (name ++ blanks')))
                (sym (length_append before (equals ∷ [])))))
  where
    marks : Marks
    marks = found before blanks name blanks' after rest pos plain middle tail

    later : (marks.at_semicolon == 0) ≡ false
    later = ground arith

    latest : (marks.at_end == 0) ≡ false
    latest = ground arith
