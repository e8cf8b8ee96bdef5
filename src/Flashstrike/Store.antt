-- ===== src/Flashstrike/Store.antt =====
-- integrations/include/flashstrike/matching_engine/price_level_store.hpp, `PriceLevelStore`: the
-- price levels of one side, in partitions that are created when they are needed. A view holds the
-- store with the pools that it refers to. A result of none is a failing assertion.
pub mod Linking
pub mod Pricing
pub mod Segment
pub mod Queue
pub mod Stale
use wirekrak.Common.{
  ℕ, zero, suc, ◌+◌, ◌-◌, ◌*◌, ◌/◌, ◌%◌, ◌^◌, Bool, true, false, List, [], ◌∷◌, Option, none, some,
  ◌==◌, ltb, if◌then◌else◌, length, get_or, set, replicate, ◌>>=◌,
}
use wirekrak.Flashstrike.Types.{Side, bid, ask}
use wirekrak.Flashstrike.Partition.{Word, zero_word, Partition, PriceLevel, put_bit, level}
use wirekrak.Flashstrike.PartitionPool.{PartitionPool, get_partition, allocate_partition}
use wirekrak.Flashstrike.Pool.{OrderPool}

pub record Store : Type 0 where
  pub num_partitions : ℕ
  pub partition_bits : ℕ
  pub active_partitions : List (Option ℕ)
  pub active_bitmap : List Word
  pub best_price : Option ℕ
  pub has_best : Bool

pub record View : Type 0 where
  pub store : Store
  pub pool : OrderPool
  pub parts : PartitionPool

unfoldable pub new_store : ℕ → ℕ → Store
new_store num_partitions partition_bits = record {
  num_partitions = num_partitions;
  partition_bits = partition_bits;
  active_partitions = replicate num_partitions none;
  active_bitmap = replicate ((num_partitions + 64 - 1) / 64) zero_word;
  best_price = none;
  has_best = false;
}

-- Prices compared as signed integers, where none is INVALID_PRICE, -1.
unfoldable pub is_below : Option ℕ → Option ℕ → Bool
is_below none none = false
is_below none (some b) = true
is_below (some a) none = false
is_below (some a) (some b) = ltb a b

unfoldable pub is_better : Side → Option ℕ → Option ℕ → Bool
unfolding is_below
is_better bid a b = is_below b a
is_better ask a b = is_below a b

unfoldable pub is_worse : Side → Option ℕ → Option ℕ → Bool
unfolding is_below
is_worse bid a b = is_below a b
is_worse ask a b = is_below b a

-- `crosses`, of an incoming order of the side.
unfoldable pub crosses : Side → ℕ → ℕ → Bool
crosses bid incoming resting = if ltb incoming resting then false else true
crosses ask incoming resting = if ltb resting incoming then false else true

unfoldable pub partition_id : Store → ℕ → ℕ
partition_id s price = price / 2 ^ s.partition_bits

unfoldable pub offset_in_partition : Store → ℕ → ℕ
offset_in_partition s price = price % 2 ^ s.partition_bits

-- The entry of a partition in range, none for the null pointer.
unfoldable pub entry_of : ℕ → Store → Option ℕ
entry_of partid s = get_or s.active_partitions partid none

-- `get_partition_`.
unfoldable pub find_partition : ℕ → Store → Option ℕ
unfolding entry_of
find_partition partid s = if ltb partid s.num_partitions then entry_of partid s else none

unfoldable pub get_or_create_partition : ℕ → View → Option (View × ℕ)
unfolding entry_of
get_or_create_partition partid v =
    if ltb partid v.store.num_partitions
    then elim (entry_of partid v.store) [
      | some part ↦ some (v, part)
      | none ↦
          let (parts, part) = allocate_partition partid v.parts in
          elim part [
            | none ↦ none
            | some part_idx ↦ some (
              record v {
                parts = parts;
                store = record v.store {
                  active_partitions = set v.store.active_partitions partid (some part_idx);
                  active_bitmap = put_bit partid true v.store.active_bitmap;
                };
              },
              part_idx,
            )
          ]
    ]
    else none

-- A write to a partition, and one to a level of it.
unfoldable pub put_partition : ℕ → Partition → View → View
put_partition part p v = record v {
  parts = record v.parts { partitions = set v.parts.partitions part p };
}

unfoldable pub put_level : ℕ → PriceLevel → Partition → Partition
put_level pl_idx pl p = record p { levels = set p.levels pl_idx pl }

unfoldable pub has_global_best : View → Bool
has_global_best v = v.store.has_best

unfoldable pub get_global_best : View → Option ℕ
get_global_best v = v.store.best_price

-- `get_best_price_level`: the partition and the place of the level, none inside for the null pointer.
-- A store that has a best price has a valid one.
unfoldable pub get_best_price_level : View → Option (Option (ℕ × ℕ))
unfolding find_partition partition_id offset_in_partition
get_best_price_level v =
    if v.store.has_best
    then (do
      price ← v.store.best_price
      part ← find_partition (partition_id v.store price) v.store
      some (some (part, offset_in_partition v.store price)))
    else some none

unfoldable pub level_at : ℕ → ℕ → View → PriceLevel
level_at part pl_idx v = level pl_idx (get_partition part v.parts)

-- `get_level`, as the partition and the place.
unfoldable pub get_level : ℕ → View → Option (View × ℕ × ℕ)
unfolding get_or_create_partition partition_id offset_in_partition
get_level price v = do
  (v', part) ← get_or_create_partition (partition_id v.store price) v
  some (v', part, offset_in_partition v.store price)
