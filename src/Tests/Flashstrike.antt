-- ===== src/Tests/Flashstrike.antt =====
-- Tests and witnesses of the matching engine.
use wirekrak.Common.{if◌then◌else◌}
use wirekrak.Common.{ℕ, ◌≡◌, refl, true, false, List, [], ◌∷◌, none, some, is_some, arith, contains}
use wirekrak.Flashstrike.IdMap.{
  OrderIdMap, entry, slot, hash_order_id, find_free, round_up, table_capacity, new_map, find,
  insert_id, remove_id,
}
use wirekrak.Flashstrike.IdMap.Invariant.{IsValid}
use wirekrak.Flashstrike.IdMap.Laws.{insert_id-find, remove_id-find}
use wirekrak.Flashstrike.IdMap.Full.{new_map-IsValid, find-new_map}
use wirekrak.Common.{◌==◌, ◌⊎◌}
use wirekrak.Flashstrike.Types.{bid, ask}
use wirekrak.Flashstrike.Partition.{
  Partition, new_partition, initialize_for_partid, initial_levels, level, put_bit, set_active,
  is_active, lowest_bit, highest_bit, lowest_active, highest_active, recompute_best,
}
use wirekrak.Flashstrike.Partition.Bitmap.{IsBitmap}
use wirekrak.Flashstrike.Partition.Best.{IsBest, recompute_best-is_active}
use wirekrak.Flashstrike.PartitionPool.{
  PartitionPool, numbers_from, new_partition_pool, allocate_partition,
}
use wirekrak.Flashstrike.Pool.{new_pool}
use wirekrak.Flashstrike.Pool.FreeList.{upward}
use wirekrak.Flashstrike.Pool.Laws.{IsFree, first, rest}
use wirekrak.Flashstrike.Pool.Runs.{Call, allocation, release_of, run, answer, new_pool-answer}

abbrev fresh_map : OrderIdMap
fresh_map = new_map 2

one_inserted : (insert_id 1 (some 7) fresh_map).1 ≡ true
unfolding insert_id new_map table_capacity round_up find_free entry slot hash_order_id
one_inserted = refl

insert_id-find_example :
    let m' = (insert_id 1 (some 7) fresh_map).0 in
    IsValid m' × (find 1 m' ≡ (if 1 == 1 then some 7 else find 1 fresh_map))
insert_id-find_example =
    insert_id-find 1 7 1 fresh_map (omega arith, omega arith) (omega arith, omega arith)
      (new_map-IsValid 2) (find-new_map 2 1 (omega arith, omega arith)) one_inserted

abbrev one_order : OrderIdMap
one_order = (insert_id 1 (some 7) fresh_map).0

one_order-IsValid : IsValid one_order
one_order-IsValid =
    (insert_id-find 1 7 1 fresh_map (omega arith, omega arith) (omega arith, omega arith)
      (new_map-IsValid 2) (find-new_map 2 1 (omega arith, omega arith)) one_inserted).0

remove_id-find_example :
    let (m', removed) = remove_id 1 one_order in
    (removed ≡ is_some (find 1 one_order))
    × IsValid m'
    × (find 1 m' ≡ (if 1 == 1 then none else find 1 one_order))
remove_id-find_example =
    remove_id-find 1 1 one_order (omega arith, omega arith) (omega arith, omega arith)
      one_order-IsValid

abbrev calls : List Call
calls = allocation ∷ allocation ∷ release_of 0 ∷ allocation ∷ allocation ∷ allocation ∷ []

new_pool-answer_example :
    ((run calls (new_pool 2)).0 ≡ (answer calls (upward 2 0)).0)
    × IsFree (run calls (new_pool 2)).1 (answer calls (upward 2 0)).1
unfolding upward rest first contains
new_pool-answer_example = new_pool-answer 2 calls (omega arith) (omega arith, refl, tt)

answered : (answer calls (upward 2 0)).0 ≡ some 0 ∷ some 1 ∷ some 0 ∷ some 2 ∷ none ∷ []
unfolding answer upward first rest
answered = refl

-- A partition of 128 levels for the prices from 128 on, two of which are active.
abbrev two_active : Partition
two_active = set_active 70 (set_active 3 (initialize_for_partid 1 (new_partition 128)))

two_active-IsBitmap : IsBitmap two_active.bitmap
unfolding set_active put_bit initialize_for_partid new_partition
two_active-IsBitmap = (refl, (refl, tt))

recompute_best-is_active_example :
    let p = recompute_best bid two_active in
    ((p.has_best ≡ false) × (p.best_price ≡ none) × ((j : ℕ) → is_active j two_active ≡ false))
    ⊎ ((i : ℕ) × (p.has_best ≡ true)
        × (p.best_price ≡ some (level i two_active).price)
        × (is_active i two_active ≡ true)
        × ((j : ℕ) → is_active j two_active ≡ true → IsBest bid i j))
recompute_best-is_active_example = recompute_best-is_active bid two_active two_active-IsBitmap

recomputed_bid : (recompute_best bid two_active).best_price ≡ some 198
unfolding recompute_best highest_active highest_bit level set_active put_bit initialize_for_partid
    initial_levels new_partition
recomputed_bid = refl

recomputed_ask : (recompute_best ask two_active).best_price ≡ some 131
unfolding recompute_best lowest_active lowest_bit level set_active put_bit initialize_for_partid
    initial_levels new_partition
recomputed_ask = refl

-- A pool of two partitions of 64 levels.
abbrev two_partitions : PartitionPool
two_partitions = new_partition_pool 2 64

allocated : (allocate_partition 3 two_partitions).1 ≡ some 1
unfolding allocate_partition new_partition_pool numbers_from
allocated = refl
