-- ===== src/AtomicHashmap.antt =====
-- godby/include/godby/AtomicHashmap.h: an open-addressed map of levels, of which a key has one bucket
-- each. The calls run alone here; a pointer to a `Referenced` object stands for the object, which is
-- never written again, and `none` is the null pointer.
pub mod Keyed
pub mod Levels
pub mod Path
pub mod Laws
pub mod Walk
pub mod Refine
pub mod Iterate
pub mod Referenced
mod Tests
use godby.Prelude.{
  ℕ, zero, suc, ◌+◌, ◌*◌, ◌/◌, ◌%◌, ◌^◌, Bool, true, false, Option, none, some, List, [], ◌∷◌, ltb,
  if◌then◌else◌, update,
}
use Keyed.{Key, key_is, free_for}

-- `ConcurrentMapBucket`
pub record Bucket (K V : Type 0) : Type 0 where
  pub key : Option K
  pub value : Option V

module _ {K V : Type 0} where
  unfoldable pub is_occupied : Bucket K V → Bool
  is_occupied b = elim b.key [ none ↦ false | some k ↦ true ]

  -- `Exchange<key_tag>` and `Exchange<value_tag>`; alone they succeed, and the old object is released.
  abbrev pub exchange_key : Bucket K V → Option K → Bucket K V
  exchange_key b k = record b { key = k }

  abbrev pub exchange_value : Bucket K V → Option V → Bucket K V
  exchange_value b v = record b { value = v }

  unfoldable pub cleanup : Bucket K V → Bucket K V
  cleanup b = exchange_value (exchange_key b none) none

  -- The loop of `WalkKey` and `WalkAll` over the `n` buckets from `i` on, for a walker that changes the
  -- bucket.
  unfoldable pub walk :
      (Bucket K V → Bool) → (Bucket K V → Bucket K V) → ℕ → ℕ → (ℕ → Bucket K V) → ℕ → Bucket K V
  walk test walker zero i buckets = buckets
  walk test walker (suc n) i buckets =
      walk test walker n (i + 1)
        (if test (buckets i) then update buckets i (walker (buckets i)) else buckets)

module _ {K V : Type 0} ⦃key : Key K⦄ where
  abbrev pub is_occupied_by : Bucket K V → K → Bool
  is_occupied_by b k = key_is b.key k

  abbrev pub is_available : Bucket K V → K → Bool
  is_available b k = free_for b.key k

-- `AtomicHashmap`; `buckets` is the array at `M_buckets`.
pub record Map (K V : Type 0) : Type 0 where
  pub capacity : ℕ
  pub level_capacity : List ℕ
  pub buckets : ℕ → Bucket K V

-- `0` and `-ENOENT`
pub data Code : Type 0 where
  ok enoent : Code

module _ {K V : Type 0} ⦃key : Key K⦄ where
  -- The loop of `Lookup` over the levels that are left; `none` is the null pointer.
  unfoldable pub lookup_from : ℕ → K → ℕ → List ℕ → (ℕ → Bucket K V) → Option ℕ
  lookup_from hash k base [] buckets = none
  lookup_from hash k base (capacity ∷ levels) buckets =
      let i = base + hash % capacity in
      let rest = lookup_from hash k (base + capacity) levels buckets in
      if is_occupied_by (buckets i) k then some i else rest

  unfoldable pub lookup : Map K V → K → Option ℕ
  lookup m k = lookup_from (key.hash k) k 0 m.level_capacity m.buckets

  -- The bucket that the loop of `Occupy` stops at.
  unfoldable pub occupy_from : ℕ → K → ℕ → List ℕ → (ℕ → Bucket K V) → Option ℕ
  occupy_from hash k base [] buckets = none
  occupy_from hash k base (capacity ∷ levels) buckets =
      let i = base + hash % capacity in
      let rest = occupy_from hash k (base + capacity) levels buckets in
      if is_available (buckets i) k then some i else rest

  abbrev pub set_bucket : Map K V → ℕ → Bucket K V → Map K V
  set_bucket m i b = record m { buckets = update m.buckets i b }

  abbrev pub occupy_at : Map K V → K → Option ℕ → Option (ℕ × Map K V)
  occupy_at m k none = none
  occupy_at m k (some i) = some (i, set_bucket m i (exchange_key (m.buckets i) (some k)))

  unfoldable pub occupy : Map K V → K → Option (ℕ × Map K V)
  occupy m k = occupy_at m k (occupy_from (key.hash k) k 0 m.level_capacity m.buckets)

  abbrev pub value_at : Map K V → Option ℕ → Option V
  value_at m none = none
  value_at m (some i) = (m.buckets i).value

  unfoldable pub get : Map K V → K → Option V
  get m k = value_at m (lookup m k)

  abbrev pub set_value : Map K V → V → Option (ℕ × Map K V) → Code × Map K V
  set_value m v none = (enoent, m)
  set_value m v (some (i, m')) = (ok, set_bucket m' i (exchange_value (m'.buckets i) (some v)))

  unfoldable pub set : Map K V → K → V → Code × Map K V
  set m k v = set_value m v (occupy m k)

  unfoldable pub walk_key : Map K V → K → (Bucket K V → Bucket K V) → Map K V
  walk_key m k walker = record m {
    buckets = walk (λ b. is_occupied_by b k) walker m.capacity 0 m.buckets;
  }

  unfoldable pub delete : Map K V → K → Map K V
  delete m k = walk_key m k cleanup

module _ {K V : Type 0} where
  unfoldable pub walk_all : Map K V → (Bucket K V → Bucket K V) → Map K V
  walk_all m walker = record m { buckets = walk is_occupied walker m.capacity 0 m.buckets }

  -- `Cleanup` of the map.
  unfoldable pub cleanup_all : Map K V → Map K V
  cleanup_all m = walk_all m cleanup

  -- `iterator`: where it stands, with the `n` buckets from there to the end.
  unfoldable pub advance_to_next_valid : ℕ → ℕ → (ℕ → Bucket K V) → ℕ × ℕ
  advance_to_next_valid zero i buckets = (zero, i)
  advance_to_next_valid (suc n) i buckets =
      let rest = advance_to_next_valid n (i + 1) buckets in
      if is_occupied (buckets i) then (suc n, i) else rest

  unfoldable pub begin : Map K V → ℕ × ℕ
  begin m = advance_to_next_valid m.capacity 0 m.buckets

  unfoldable pub next : ℕ × ℕ → (ℕ → Bucket K V) → ℕ × ℕ
  next (zero, i) buckets = (zero, i)
  next (suc n, i) buckets = advance_to_next_valid n (i + 1) buckets

-- What the constructor comes to.
pub data Built (K V : Type 0) : Type 0 where
  built : Map K V → Built K V
  invalid : Built K V
  division_by_zero : Built K V

abbrev pub add_level : ℕ → Option (List ℕ × ℕ) → Option (List ℕ × ℕ)
add_level capacity none = none
add_level capacity (some (capacities, sum)) = some (capacity ∷ capacities, sum)

abbrev pub build : {K V : Type 0} → Option (List ℕ × ℕ) → Built K V
build none = invalid
build (some (level_capacity, capacity)) = built (record {
  capacity = capacity;
  level_capacity = level_capacity;
  buckets = λ i. record { key = none; value = none };
})

-- `GenMultiLevelSize`: the level sizes, or `none` for the error. The arithmetic in doubles is not
-- modelled: `prime_for n` is `NextPrime(1. * n / ln_ratio)`, `occupied c` is `c * occupied_ratio` as a
-- `size_t`, and `left n c` is `n - c * occupied_ratio` as one.
module _ (prime_for occupied : ℕ → ℕ) (left : ℕ → ℕ → ℕ) where
  unfoldable pub gen_multi_level_size : ℕ → ℕ → ℕ → Option (List ℕ × ℕ)
  gen_multi_level_size n zero sum = some ([], sum)
  gen_multi_level_size n (suc level) sum =
      let capacity = prime_for n in
      let rest = gen_multi_level_size (left n capacity) level ((sum + capacity) % 2 ^ 64) in
      if ltb n (occupied capacity) then none else add_level capacity rest

  -- The constructor: it throws, divides by 0, or builds a map. It sizes the levels twice.
  abbrev pub create_from : {K V : Type 0} → ℕ → ℕ → Option (List ℕ × ℕ) → Built K V
  create_from expected_capacity level_size none = invalid
  create_from expected_capacity level_size (some (_, zero)) = division_by_zero
  create_from expected_capacity level_size (some (_, suc capacity)) =
      let n = expected_capacity * expected_capacity % 2 ^ 64 / suc capacity in
      build (gen_multi_level_size n level_size 0)

  unfoldable pub create : {K V : Type 0} → ℕ → ℕ → Built K V
  create expected_capacity level_size =
      create_from expected_capacity level_size (gen_multi_level_size expected_capacity level_size 0)
