-- ===== src/SharedStorage/Keys.antt =====
-- The tags can be read back from the key that `MakeKey` makes of them.
use godby.Prelude.{
  ℕ, ◌+◌, ◌≡◌, refl, sym, ◌∙◌, ap, subst, Bool, true, false, not, ◌&&◌, List, [], ◌∷◌, ◌++◌,
  append_assoc, if◌then◌else◌, ◌==◌, length, Bool-cases, and_both, inl, inr, arith,
}
use godby.SharedStorage.Text.{String, dot, colon, print_tags, pop_dot, make_key, drop}

-- The tags with dots between them.
unfoldable pub join : String → List String → String
join tag [] = tag
join tag (next ∷ tags) = tag ++ (dot ∷ join next tags)

-- The parts of a string between its dots.
abbrev pub add_first : ℕ → List String → List String
add_first c [] = (c ∷ []) ∷ []
add_first c (part ∷ parts) = (c ∷ part) ∷ parts

unfoldable pub split : String → List String
split [] = [] ∷ []
split (c ∷ cs) = let rest = split cs in if c == dot then [] ∷ rest else add_first c rest

unfoldable pub undotted : String → Bool
undotted [] = true
undotted (c ∷ cs) = not (c == dot) && undotted cs

unfoldable pub all_undotted : List String → Bool
all_undotted [] = true
all_undotted (tag ∷ tags) = undotted tag && all_undotted tags

pub pop_dot_lem : (s : String) → pop_dot (s ++ (dot ∷ [])) ≡ s
unfolding pop_dot
pop_dot_lem [] = refl
pop_dot_lem (c ∷ []) = refl
pop_dot_lem (c ∷ (d ∷ s)) = ap (λ r. c ∷ r) (pop_dot_lem (d ∷ s))

print_tags-join :
    (tag : String) (tags : List String) → print_tags (tag ∷ tags) ≡ join tag tags ++ (dot ∷ [])
unfolding print_tags join
print_tags-join tag [] = refl
print_tags-join tag (next ∷ tags) =
    ap (λ r. tag ++ (dot ∷ r)) (print_tags-join next tags)
    ∙ sym (append_assoc tag (dot ∷ join next tags) (dot ∷ []))

-- The key has colons behind the name and dots between the tags.
pub make_key-join :
    (name tag : String) (tags : List String)
    → make_key name (tag ∷ tags) ≡ name ++ (colon ∷ (colon ∷ join tag tags))
unfolding make_key
make_key-join name tag tags =
    ap (λ r. pop_dot (name ++ (colon ∷ (colon ∷ r)))) (print_tags-join tag tags)
    ∙ ap pop_dot (sym (append_assoc name (colon ∷ (colon ∷ join tag tags)) (dot ∷ [])))
    ∙ pop_dot_lem (name ++ (colon ∷ (colon ∷ join tag tags)))

pub drop_append : (name s : String) → drop (length name) (name ++ s) ≡ s
unfolding drop
drop_append [] s = refl
drop_append (c ∷ name) s = drop_append name s

-- A character of an undotted string is no dot, and the rest is undotted.
no_dot : (c : ℕ) (b : Bool) → (not (c == dot) && b) ≡ true → (c == dot) ≡ false
no_dot c b h = elim (Bool-cases (c == dot)) [
  | inl e ↦ absurd (contrary (subst (λ x. (not x && b) ≡ true) e h))
  | inr e ↦ e
]
  where
    contrary : false ≡ true → ⊥
    contrary e = cc

split-tag : (tag : String) → undotted tag ≡ true → split tag ≡ tag ∷ []
unfolding split undotted
split-tag [] h = refl
split-tag (c ∷ cs) h =
    rw (no_dot c (undotted cs) h) (ap (add_first c) (split-tag cs (and_both _ _ h).1))

split-dot :
    (tag rest : String) → undotted tag ≡ true → split (tag ++ (dot ∷ rest)) ≡ tag ∷ split rest
unfolding split undotted
split-dot [] rest h = refl
split-dot (c ∷ cs) rest h =
    rw (no_dot c (undotted cs) h) (ap (add_first c) (split-dot cs rest (and_both _ _ h).1))

split-join :
    (tag : String) (tags : List String)
    → all_undotted (tag ∷ tags) ≡ true
    → split (join tag tags) ≡ tag ∷ tags
unfolding join all_undotted
split-join tag [] h = split-tag tag (and_both _ _ h).0
split-join tag (next ∷ tags) h =
    split-dot tag (join next tags) (and_both _ _ h).0
    ∙ ap (λ r. tag ∷ r) (split-join next tags (and_both _ _ h).1)

-- Tags without dots, one at least, are the parts between the dots of their key, behind the name of the type
-- and two colons.
pub split-make_key :
    (name tag : String) (tags : List String)
    → all_undotted (tag ∷ tags) ≡ true
    → split (drop (2 + length name) (make_key name (tag ∷ tags))) ≡ tag ∷ tags
split-make_key name tag tags h =
    ap (λ k. split (drop (2 + length name) k))
      (make_key-join name tag tags ∙ sym (append_assoc name (colon ∷ (colon ∷ [])) (join tag tags)))
    ∙ ap (λ n. split (drop n ((name ++ (colon ∷ (colon ∷ []))) ++ join tag tags))) (size name)
    ∙ ap split (drop_append (name ++ (colon ∷ (colon ∷ []))) (join tag tags))
    ∙ split-join tag tags h
  where
    size : (name : String) → 2 + length name ≡ length (name ++ (colon ∷ (colon ∷ [])))
    size [] = refl
    size (c ∷ name) = omega (arith, size name)
