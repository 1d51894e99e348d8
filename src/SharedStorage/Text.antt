-- ===== src/SharedStorage/Text.antt =====
-- The strings of SharedStorage.h: the name of a type, which `ConstexprGetType` cuts out of the text that
-- the compiler gives for the function, and the key that `MakeKey` puts together. A string is the list of
-- its characters' codes.
use godby.Prelude.{
  ℕ, zero, suc, ◌+◌, ◌-◌, ◌≡◌, refl, ap₂, subst, Bool, true, false, ◌&&◌, ◌||◌, List, [], ◌∷◌, ◌++◌,
  if◌then◌else◌, ◌==◌, ==_iff, get_or, Bool-cases, inl, inr,
}

abbrev pub String : Type 0
String = List ℕ

unfoldable pub same : String → String → Bool
same [] [] = true
same [] (d ∷ ds) = false
same (c ∷ cs) [] = false
same (c ∷ cs) (d ∷ ds) = (c == d) && same cs ds

pub same_self : (s : String) → same s s ≡ true
unfolding same
same_self [] = refl
same_self (c ∷ cs) = rw ((==_iff c c).1 refl) (same_self cs)

pub equal_of_same : (s s' : String) → same s s' ≡ true → s ≡ s'
unfolding same
equal_of_same [] [] h = refl
equal_of_same [] (d ∷ ds) h = absurd cc
equal_of_same (c ∷ cs) [] h = absurd cc
equal_of_same (c ∷ cs) (d ∷ ds) h = elim (Bool-cases (c == d)) [
  | inl e ↦ ap₂ (λ a b. a ∷ b) ((==_iff c d).0 e) (equal_of_same cs ds (rest e))
  | inr e ↦ absurd (first e)
]
  where
    rest : (c == d) ≡ true → same cs ds ≡ true
    rest e = subst (λ b. (b && same cs ds) ≡ true) e h

    first : (c == d) ≡ false → ⊥
    first e = false_true (subst (λ b. (b && same cs ds) ≡ true) e h)
      where
        false_true : false ≡ true → ⊥
        false_true e = cc

abbrev pub tab : ℕ
tab = 9

abbrev pub newline : ℕ
newline = 10

abbrev pub vertical_tab : ℕ
vertical_tab = 11

abbrev pub form_feed : ℕ
form_feed = 12

abbrev pub carriage_return : ℕ
carriage_return = 13

abbrev pub space : ℕ
space = 32

abbrev pub dot : ℕ
dot = 46

abbrev pub colon : ℕ
colon = 58

abbrev pub semicolon : ℕ
semicolon = 59

abbrev pub equals : ℕ
equals = 61

abbrev pub bracket : ℕ
bracket = 93

unfoldable pub constexpr_is_space : ℕ → Bool
constexpr_is_space c =
    (c == space)
    || ((c == tab)
        || ((c == newline)
            || ((c == carriage_return) || ((c == form_feed) || (c == vertical_tab)))))

-- The marks that the loop of `ConstexprGetType` sets; 0 says that there is none.
pub record Marks : Type 0 where
  pub at_equals : ℕ
  pub at_semicolon : ℕ
  pub at_end : ℕ

-- One turn of the loop, at character `c` of index `i`.
unfoldable pub mark : ℕ → ℕ → Marks → Marks
mark c i k =
    if c == equals
    then (if k.at_equals == 0 then record k { at_equals = i } else k)
    else (if c == semicolon
        then record k { at_semicolon = i }
        else (if c == bracket then record k { at_end = i } else k))

-- The loop, over the characters from index `i` on.
unfoldable pub scan : String → ℕ → Marks → Marks
scan [] i k = k
scan (c ∷ cs) i k = let rest = scan cs (i + 1) (mark c i k) in if k.at_end == 0 then rest else k

-- The loops that skip blanks: `n` is the distance of `start` from `end`.
unfoldable pub skip_front : String → ℕ → ℕ → ℕ
skip_front info zero start = start
skip_front info (suc n) start =
    let rest = skip_front info n (start + 1) in
    if constexpr_is_space (get_or info start 0) then rest else start

unfoldable pub skip_back : String → ℕ → ℕ → ℕ
skip_back info zero end = end
skip_back info (suc n) end =
    let rest = skip_back info n (end - 1) in
    if constexpr_is_space (get_or info (end - 1) 0) then rest else end

-- The view of `size` characters from index `start` on.
unfoldable pub take : ℕ → String → String
take zero s = []
take (suc n) [] = []
take (suc n) (c ∷ cs) = c ∷ take n cs

unfoldable pub drop : ℕ → String → String
drop zero s = s
drop (suc n) [] = []
drop (suc n) (c ∷ cs) = drop n cs

-- The text between the marks without the blanks at its ends.
unfoldable pub trimmed : String → Marks → String
trimmed info k =
    let start = k.at_equals + 1 in
    let end = k.at_semicolon in
    let start' = skip_front info (end - start) start in
    let end' = skip_back info (end - start') end in take (end' - start') (drop start' info)

-- `ConstexprGetType`, given the value of `__PRETTY_FUNCTION__`, for compilers other than Apple's. The
-- compiler writes the semicolon after the first equals sign: before it the size of the view would wrap
-- around, and here it is 0.
unfoldable pub constexpr_get_type : String → String
constexpr_get_type info =
    let k = scan info 0 (record { at_equals = 0; at_semicolon = 0; at_end = 0 }) in
    if (k.at_equals == 0) || ((k.at_semicolon == 0) || (k.at_end == 0)) then [] else trimmed info k

-- The tags as the stream prints them, each with a dot behind it.
unfoldable pub print_tags : List String → String
print_tags [] = []
print_tags (tag ∷ tags) = tag ++ (dot ∷ print_tags tags)

-- `if (!key.empty() && key.back() == '.') { key.pop_back(); }`
unfoldable pub pop_dot : String → String
pop_dot [] = []
pop_dot (c ∷ []) = if c == dot then [] else c ∷ []
pop_dot (c ∷ (d ∷ s)) = c ∷ pop_dot (d ∷ s)

-- `MakeKey`, given the name of the type and the tags as the stream prints them.
unfoldable pub make_key : String → List String → String
make_key name tags = pop_dot (name ++ (colon ∷ (colon ∷ print_tags tags)))
