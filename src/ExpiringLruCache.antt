-- ===== src/ExpiringLruCache.antt =====
-- samples/contrib/expiring_lru_cache.h: a cache of bounded size, whose items expire. The list of keys is the
-- list of its nodes, which are numbers, with the key of each. The hash map is another project's, and so is
-- given here by the operations that the cache uses and what they promise.
pub mod Recency
pub mod Bounded
pub mod Calls
pub mod Lru
mod Tests
use godby.Prelude.{
  ℕ, zero, suc, ◌+◌, ◌-◌, ◌/◌, ◌≡◌, ◌↔◌, Bool, true, false, Option, none, some, List, [], ◌∷◌,
  if◌then◌else◌, ltb, ◌==◌, update, length,
}
use godby.Prelude.Chain.{remove}

abbrev pub is_some : {A : Type 0} → Option A → Bool
is_some none = false
is_some (some a) = true

-- Keys can be compared.
pub record Keys (K : Type 0) : Type 0 where
  pub beq : K → K → Bool
  pub beq_iff : (a b : K) → (beq a b ≡ true) ↔ (a ≡ b)

-- `ankerl::unordered_dense::map`
pub record MapOps (M K E : Type 0) ⦃keys : Keys K⦄ : Type 0 where
  pub empty : M
  pub find : M → K → Option E
  pub assign : M → K → E → M
  pub erase : M → K → M
  pub size : M → ℕ
  pub find-empty : (k : K) → find empty k ≡ none
  pub find-assign :
      (m : M) (k : K) (e : E) (j : K)
      → find (assign m k e) j ≡ (if keys.beq k j then some e else find m j)
  pub find-erase :
      (m : M) (k j : K) → find (erase m k) j ≡ (if keys.beq k j then none else find m j)
  pub size-empty : size empty ≡ 0
  pub size-assign :
      (m : M) (k : K) (e : E)
      → size (assign m k e) ≡ (if is_some (find m k) then size m else size m + 1)
  pub size-erase :
      (m : M) (k : K) → size (erase m k) ≡ (if is_some (find m k) then size m - 1 else size m)

-- The tuple of a key: its value, its node in the list and a time in nanoseconds.
pub record Item (V : Type 0) : Type 0 where
  pub value : V
  pub node : ℕ
  pub time : ℕ

pub record Cache (M K : Type 0) : Type 0 where
  pub map : M
  pub used : List ℕ
  pub node_key : ℕ → K
  pub next_node : ℕ
  pub capacity : ℕ
  pub ttl : ℕ

abbrev pub second : ℕ
second = 1000000000

-- `begin()`, or 0 for an empty list; `back()`; and `pop_back()`
abbrev pub front : List ℕ → ℕ
front [] = 0
front (n ∷ l) = n

unfoldable pub back : List ℕ → Option ℕ
back [] = none
back (n ∷ []) = some n
back (n ∷ (m ∷ l)) = back (m ∷ l)

unfoldable pub pop_back : List ℕ → List ℕ
pop_back [] = []
pop_back (n ∷ []) = []
pop_back (n ∷ (m ∷ l)) = n ∷ pop_back (m ∷ l)

module _ {M K V : Type 0} ⦃keys : Keys K⦄ (ops : MapOps M K (Item V)) where
  abbrev pub create : ℕ → ℕ → K → Cache M K
  create capacity ttl unused = record {
    map = ops.empty;
    used = [];
    node_key = λ n. unused;
    next_node = 0;
    capacity = capacity;
    ttl = ttl;
  }

  -- `touch`, with what the clock says.
  unfoldable pub touch : K → Item V → ℕ → Cache M K → Cache M K
  touch key it now c =
      let used = it.node ∷ remove it.node c.used in
      record c {
        used = used;
        map = ops.assign c.map key (record it { node = front used; time = now });
      }

  -- Whole seconds since the time of an item.
  abbrev pub expired : Item V → ℕ → Cache M K → Bool
  expired it now c = ltb c.ttl ((now - it.time) / second)

  abbrev pub erase_item : K → Item V → Cache M K → Cache M K
  erase_item key it c = record c { used = remove it.node c.used; map = ops.erase c.map key }

  unfoldable pub find_item : K → Option (Item V) → ℕ → ℕ → Cache M K → Option (Item V) × Cache M K
  find_item key none now now' c = (none, c)
  find_item key (some it) now now' c =
      if expired it now c
      then (none, erase_item key it c)
      else (let c' = touch key it now' c in (ops.find c'.map key, c'))

  -- `find`, where the clock says `now` and then `now'`; what it returns is the item at the iterator.
  unfoldable pub find : K → ℕ → ℕ → Cache M K → Option (Item V) × Cache M K
  find key now now' c = find_item key (ops.find c.map key) now now' c

  -- `at`: `none` is the exception.
  abbrev pub value_of : Option (Item V) → Option V
  value_of none = none
  value_of (some it) = some it.value

  unfoldable pub at : K → ℕ → ℕ → Cache M K → Option V × Cache M K
  at key now now' c = let (it, c') = find key now now' c in (value_of it, c')

  -- The last key leaves; `none` is a call of `back()` on an empty list.
  unfoldable pub evict : Option ℕ → Cache M K → Option (Cache M K)
  evict none c = none
  evict (some n) c =
      some (record c { map = ops.erase c.map (c.node_key n); used = pop_back c.used })

  unfoldable pub make_room : Cache M K → Option (Cache M K)
  make_room c = if ops.size c.map == c.capacity then evict (back c.used) c else some c

  abbrev pub push_front : K → Cache M K → Cache M K
  push_front key c = record c {
    used = c.next_node ∷ c.used;
    node_key = update c.node_key c.next_node key;
    next_node = c.next_node + 1;
  }

  -- `m_cache[key] = {value, m_used.begin(), clock_t::now()}`
  abbrev pub assign_item : K → V → ℕ → Cache M K → Cache M K
  assign_item key value now c = record c {
    map = ops.assign c.map key (record { value = value; node = front c.used; time = now });
  }

  abbrev pub add_item : K → V → ℕ → Option (Cache M K) → Option (Cache M K)
  add_item key value now none = none
  add_item key value now (some c) = some (assign_item key value now (push_front key c))

  unfoldable pub emplace_item : K → V → Option (Item V) → ℕ → ℕ → Cache M K → Option (Cache M K)
  emplace_item key value (some it) now now' c =
      some (assign_item key value now' (touch key it now c))
  emplace_item key value none now now' c = add_item key value now' (make_room c)

  unfoldable pub emplace : K → V → ℕ → ℕ → Cache M K → Option (Cache M K)
  emplace key value now now' c = emplace_item key value (ops.find c.map key) now now' c

  abbrev pub size : Cache M K → ℕ
  size c = ops.size c.map

  abbrev pub list_size : Cache M K → ℕ
  list_size c = length c.used
