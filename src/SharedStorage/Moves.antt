-- ===== src/SharedStorage/Moves.antt =====
-- The changes that the calls make, an entry put or erased and a cache filled, keep the caches true.
use godby.Prelude.{
  ℕ, ◌≤◌, ◌<◌, ◌≡◌, ◌≢◌, sym, ◌∙◌, ap, subst, true, false, Option, none, some, arith, inl, inr,
  Option-cases,
}
use godby.SharedStorage.Text.{String}
use godby.SharedStorage.{Entry, Storage, put, cache_set}
use godby.SharedStorage.Coherent.{
  put_cases, cache_cases, put_other, Coherent, Valid, Uncached, Holds,
}

pub of_some : {A : Type 0} {a b : A} → some a ≡ some b → a ≡ b
of_some e = cc

module _ {name : ℕ → String} {S : String → Option Entry} {C : ℕ → ℕ → String → Option ℕ} {n : ℕ}
    (v : Coherent name S C n) (key : String) (free : (t T : ℕ) → C t T key ≡ none) where
  -- A key that is cached is another one.
  uncached_other : (t T : ℕ) (k : String) (p : ℕ) → C t T k ≡ some p → key ≢ k
  uncached_other t T k p h eq = contrary (subst (λ i. C t T i ≡ none) eq (free t T))
    where
      contrary : C t T k ≡ none → ⊥
      contrary e = cc

  kept :
      (a : Option Entry) (t T : ℕ) (k : String) (p : ℕ)
      → C t T k ≡ some p
      → Holds (put S key a k) (name T) p
  kept a t T k p h =
      let b = v.backed t T k p h in
      record {
        e = b.e;
        at = put_other S key a k (uncached_other t T k p h) ∙ b.at;
        value = b.value;
        type = b.type;
        fixed = b.fixed;
      }

  pub erase-Coherent : Coherent name (put S key none) C n
  erase-Coherent = record {
    backed = kept none;
    older = λ k e p h. v.older k e p (before k e h);
    apart = λ k e k' e' p h g h'. v.apart k e k' e' p (before k e h) g (before k' e' h');
  }
    where
      before : (k : String) (e : Entry) → put S key none k ≡ some e → S k ≡ some e
      before k e h = elim (put_cases S key none k) [
        | inl (_, at) ↦ absurd (none-some (sym at ∙ h))
        | inr (_, at) ↦ sym at ∙ h
      ]
        where
          none-some : none ≡ some e → ⊥
          none-some e = cc

  -- Where the value of the new entry is that of no other key.
  pub put-Coherent :
      {n' : ℕ} (new : Entry)
      → n ≤ n'
      → ((p : ℕ) → new.value ≡ some p → p < n')
      → ((p : ℕ)
          → new.value ≡ some p
          → (k : String) (e : Entry) → S k ≡ some e
          → e.value ≡ some p
          → key ≡ k)
      → Coherent name (put S key (some new)) C n'
  put-Coherent {n'} new le below own = record {
    backed = kept (some new);
    older = λ k e p h g. elim (put_cases S key (some new) k) [
      | inl (_, at) ↦ below p (ap (λ x. x.value) (of_some (sym at ∙ h)) ∙ g)
      | inr (_, at) ↦ omega (arith, v.older k e p (sym at ∙ h) g, le)
    ];
    apart = λ k e k' e' p h g h' g'. elim (put_cases S key (some new) k) [
      | inl (same_k, at) ↦ elim (put_cases S key (some new) k') [
        | inl (same_k', at') ↦ sym same_k ∙ same_k'
        | inr (_, at') ↦
            sym same_k
            ∙ own p (ap (λ x. x.value) (of_some (sym at ∙ h)) ∙ g) k' e' (sym at' ∙ h') g'
      ]
      | inr (_, at) ↦ elim (put_cases S key (some new) k') [
        | inl (same_k', at') ↦
            sym (own p (ap (λ x. x.value) (of_some (sym at' ∙ h')) ∙ g') k e (sym at ∙ h) g)
            ∙ same_k'
        | inr (_, at') ↦ v.apart k e k' e' p (sym at ∙ h) g (sym at' ∙ h') g'
      ]
    ];
  }

-- A cache is filled with what is stored and not to be deleted.
pub cache_set-Valid :
    {name : ℕ → String} (s : Storage) (t T : ℕ) (key : String) (p : ℕ)
    → Holds (s.storage key) (name T) p
    → Valid name s
    → Valid name (cache_set t T key p s)
cache_set-Valid {name} s t T key p b v = record {
  backed = λ u U k q h. elim (cache_cases t T key p s u U k q h) [
    | inl (_, same_T, same_k, same_p) ↦ record {
      e = b.e;
      at = ap s.storage (sym same_k) ∙ b.at;
      value = b.value ∙ ap some same_p;
      type = b.type ∙ ap name same_T;
      fixed = b.fixed;
    }
    | inr h' ↦ v.backed u U k q h'
  ];
  older = v.older;
  apart = v.apart;
}

-- A key whose entry is missing, or may be deleted, or has no value, is in no cache.
pub Uncached-missing :
    {name : ℕ → String} (s : Storage)
    → Valid name s
    → (key : String) → s.storage key ≡ none
    → Uncached s key
Uncached-missing {name} s v key at t T = elim (Option-cases (s.cached t T key)) [
  | inl h ↦ h
  | inr (p, h) ↦ absurd (stored p h)
]
  where
    stored : (p : ℕ) → s.cached t T key ≡ some p → ⊥
    stored p h = let b = v.backed t T key p h in contrary b.e (sym at ∙ b.at)
      where
        contrary : (e : Entry) → none ≡ some e → ⊥
        contrary e eq = cc

pub Uncached-entry :
    {name : ℕ → String} (s : Storage)
    → Valid name s
    → (key : String) (e : Entry) → s.storage key ≡ some e
    → ((p : ℕ) → e.value ≡ some p → e.deletable ≡ true)
    → Uncached s key
Uncached-entry {name} s v key e at loose t T = elim (Option-cases (s.cached t T key)) [
  | inl h ↦ h
  | inr (p, h) ↦ absurd (stored p h)
]
  where
    stored : (p : ℕ) → s.cached t T key ≡ some p → ⊥
    stored p h =
        let b = v.backed t T key p h in
        let same = of_some (sym b.at ∙ at) in
        contrary (
          sym (loose p (ap (λ x. x.value) (sym same) ∙ b.value))
          ∙ ap (λ x. x.deletable) (sym same)
          ∙ b.fixed)
      where
        contrary : true ≡ false → ⊥
        contrary eq = cc
