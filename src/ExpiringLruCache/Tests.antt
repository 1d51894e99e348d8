-- ===== src/ExpiringLruCache/Tests.antt =====
-- ExpiringLruCache: two keys, in a cache with room for one.
use godby.Prelude.{
  ℕ, ◌+◌, ◌-◌, ◌/◌, ◌≡◌, ◌≤◌, ◌↔◌, refl, Bool, true, false, not, ◌&&◌, Option, none, some,
  if◌then◌else◌, ltb, arith,
}
use godby.ExpiringLruCache.{
  is_some, Keys, MapOps, Item, Cache, back, touch, find, find_item, at, make_room, evict, pop_back,
  emplace_item, emplace, create, size, list_size, second,
}
use godby.ExpiringLruCache.Calls.{evicts}
use godby.ExpiringLruCache.Lru.{Reach, begin, emplaces, size_bounded, emplace_lem}

abbrev beq : Bool → Bool → Bool
beq true b = b
beq false b = not b

beq_iff : (a b : Bool) → (beq a b ≡ true) ↔ (a ≡ b)
beq_iff true true = (λ h. refl, λ h. refl)
beq_iff true false = (λ h. absurd cc, λ h. absurd cc)
beq_iff false true = (λ h. absurd cc, λ h. absurd cc)
beq_iff false false = (λ h. refl, λ h. refl)

instance abbrev two_keys : Keys Bool
two_keys = record { beq = beq; beq_iff = beq_iff }

-- A map from the two keys, as the items of both.
module _ {E : Type 0} where
  abbrev look : Option E × Option E → Bool → Option E
  look m true = m.0
  look m false = m.1

  abbrev change : Option E × Option E → Bool → Option E → Option E × Option E
  change m true e = (e, m.1)
  change m false e = (m.0, e)

  abbrev one : Option E → ℕ
  one none = 0
  one (some e) = 1

  abbrev count : Option E × Option E → ℕ
  count m = one m.0 + one m.1

  look_change :
      (m : Option E × Option E) (k : Bool) (e : Option E) (j : Bool)
      → look (change m k e) j ≡ (if beq k j then e else look m j)
  look_change m true e true = refl
  look_change m true e false = refl
  look_change m false e true = refl
  look_change m false e false = refl

  count_change :
      (m : Option E × Option E) (k : Bool) (e : E)
      → count (change m k (some e)) ≡ (if is_some (look m k) then count m else count m + 1)
  count_change (none, n) true e = omega arith
  count_change (some d, n) true e = refl
  count_change (n, none) false e = omega arith
  count_change (n, some d) false e = refl

  count_erase :
      (m : Option E × Option E) (k : Bool)
      → count (change m k none) ≡ (if is_some (look m k) then count m - 1 else count m)
  count_erase (none, n) true = refl
  count_erase (some d, n) true = omega arith
  count_erase (n, none) false = refl
  count_erase (n, some d) false = omega arith

abbrev pair : MapOps (Option (Item ℕ) × Option (Item ℕ)) Bool (Item ℕ)
pair = record {
  empty = (none, none);
  find = look;
  assign = λ m k e. change m k (some e);
  erase = λ m k. change m k none;
  size = count;
  find-empty = λ k. nothing k;
  find-assign = λ m k e j. look_change m k (some e) j;
  find-erase = λ m k j. look_change m k none j;
  size-empty = refl;
  size-assign = count_change;
  size-erase = count_erase;
}
  where
    nothing : (k : Bool) → look {E = Item ℕ} (none, none) k ≡ none
    nothing true = refl
    nothing false = refl

-- The key `true` is put in, and then `false` takes its place.
abbrev empty : Cache (Option (Item ℕ) × Option (Item ℕ)) Bool
empty = create pair 1 60 true

first :
    (c : Cache (Option (Item ℕ) × Option (Item ℕ)) Bool) × (emplace pair true 7 0 0 empty ≡ some c)
first = let r = emplace_lem pair (begin 1 60 true (omega arith)) true 7 0 0 in (r.0, r.1)

first-Reach : Reach pair first.0
first-Reach = emplaces true 7 0 0 first.0 (begin 1 60 true (omega arith)) first.1

size_bounded_example :
    (size pair first.0 ≤ first.0.capacity) × (size pair first.0 ≡ list_size pair first.0)
size_bounded_example = size_bounded pair first-Reach

emplace_lem_example :
    (c' : Cache (Option (Item ℕ) × Option (Item ℕ)) Bool) × (emplace pair false 8 second second
        first.0
      ≡ some c')
    × ((later later' : ℕ)
        → ltb first.0.ttl ((later - second) / second) ≡ false
        → (at pair false later later' c').0 ≡ some 8)
    × ((j : Bool)
        → beq false j ≡ false
        → pair.find c'.map j ≡ (
            if not (is_some (pair.find first.0.map false)) && evicts pair first.0 j
            then none
            else pair.find first.0.map j))
emplace_lem_example = emplace_lem pair first-Reach false 8 second second

abbrev keys_left : Option (Cache (Option (Item ℕ) × Option (Item ℕ)) Bool) → Option ℕ × Option ℕ
keys_left none = (none, none)
keys_left (some c) = ((at pair true 2 2 c).0, (at pair false 2 2 c).0)

abbrev then_false :
    Option (Cache (Option (Item ℕ) × Option (Item ℕ)) Bool)
    → Option (Cache (Option (Item ℕ) × Option (Item ℕ)) Bool)
then_false none = none
then_false (some c) = emplace pair false 8 1 1 c

ran : keys_left (then_false (emplace pair true 7 0 0 empty)) ≡ (none, some 8)
unfolding emplace emplace_item make_room evict back pop_back at find find_item touch
ran = refl
