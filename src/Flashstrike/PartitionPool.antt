-- ===== src/Flashstrike/PartitionPool.antt =====
-- integrations/include/flashstrike/matching_engine/partitions.hpp, `PartitionPool`: partitions with a
-- stack of the free ones. A pointer to a partition is its index, and `free_count` is
-- `free_head_ + 1`.
pub mod Stack
use wirekrak.Common.{
  ℕ, zero, suc, ◌+◌, ◌-◌, List, [], ◌∷◌, Option, none, some, length, get_or, set, replicate,
}
use wirekrak.Flashstrike.Partition.{Partition, new_partition, initialize_for_partid}

pub record PartitionPool : Type 0 where
  pub partitions : List Partition
  pub free_list : List ℕ
  pub free_count : ℕ

-- The constructor's loop that fills the free list, from `i` on.
unfoldable pub numbers_from : ℕ → ℕ → List ℕ
numbers_from zero i = []
numbers_from (suc n) i = i ∷ numbers_from n (i + 1)

unfoldable pub new_partition_pool : ℕ → ℕ → PartitionPool
unfolding numbers_from
new_partition_pool num_partitions partition_size = record {
  partitions = replicate num_partitions (new_partition partition_size);
  free_list = numbers_from num_partitions 0;
  free_count = num_partitions;
}

unfoldable pub partition_capacity : PartitionPool → ℕ
partition_capacity p = length p.partitions

unfoldable pub free_partitions : PartitionPool → ℕ
free_partitions p = p.free_count

unfoldable pub used_partitions : PartitionPool → ℕ
used_partitions p = length p.partitions - p.free_count

unfoldable pub get_partition : ℕ → PartitionPool → Partition
get_partition part_idx p = get_or p.partitions part_idx (new_partition 0)

unfoldable pub allocate_partition : ℕ → PartitionPool → PartitionPool × Option ℕ
unfolding get_partition
allocate_partition partid p = elim p.free_count [
  | zero ↦ (p, none)
  | suc free_head ↦
      let part_idx = get_or p.free_list free_head 0 in
      (
        record p {
          partitions =
              set p.partitions part_idx (initialize_for_partid partid (get_partition part_idx p));
          free_count = free_head;
        },
        some part_idx,
      )
]

unfoldable pub release_partition : ℕ → PartitionPool → PartitionPool
release_partition part_idx p = record p {
  free_list = set p.free_list p.free_count part_idx;
  free_count = p.free_count + 1;
}
