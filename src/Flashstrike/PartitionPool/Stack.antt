-- ===== src/Flashstrike/PartitionPool/Stack.antt =====
-- The free partitions of a pool are a stack.
use wirekrak.Common.{
  ℕ, zero, suc, ◌≤◌, ◌<◌, ◌≡◌, refl, ap, ◌∙◌, List, [], ◌∷◌, length, get_or, set, get_or-set_self,
  get_or-set_ne, arith, ◌⊎◌, inl, inr, Bool-cases, ==_iff, ◌==◌, if◌then◌else◌, is_owner,
}
use mathlib.Core.Path.{ap₂}
use wirekrak.Flashstrike.Partition.{Partition, new_partition, initialize_for_partid}
use wirekrak.Flashstrike.PartitionPool.{
  PartitionPool, get_partition, allocate_partition, release_partition,
}
use wirekrak.Flashstrike.Pool.Laws.{first, rest}

-- The first `n` entries of the free list, the last of them on top.
unfoldable pub stack_of : ℕ → List ℕ → List ℕ
stack_of zero free_list = []
stack_of (suc n) free_list = get_or free_list n 0 ∷ stack_of n free_list

unfoldable pub free_stack : PartitionPool → List ℕ
unfolding stack_of
free_stack p = stack_of p.free_count p.free_list

stack_of-set :
    (n i x : ℕ) (free_list : List ℕ) → n ≤ i → stack_of n (set free_list i x) ≡ stack_of n free_list
unfolding stack_of
stack_of-set zero i x free_list l = refl
stack_of-set (suc n) i x free_list l =
    ap₂ ◌∷◌ (get_or-set_ne free_list x 0 (λ e. omega (arith, e, l)))
      (stack_of-set n i x free_list (omega (arith, l)))

count_cases : (n : ℕ) → (n ≡ 0) ⊎ ((k : ℕ) × (n ≡ suc k))
count_cases zero = inl refl
count_cases (suc k) = inr (k, refl)

written :
    (ps : List Partition) (k i : ℕ) (d : Partition) (f : Partition → Partition)
    → i < length ps
    → get_or (set ps k (f (get_or ps k d))) i d
      ≡ (if k == i then f (get_or ps i d) else get_or ps i d)
written ps k i d f l = elim (Bool-cases (k == i)) [
  | inl e ↦
      let same = (==_iff k i).0 e in rw (e, same) (get_or-set_self ps i (f (get_or ps i d)) d l)
  | inr e ↦ rw e (get_or-set_ne ps (f (get_or ps k d)) d (λ g. ground (arith, e, g)))
]

-- An allocation takes the index on top of the stack, and none from an empty one; the partition taken
-- is initialized, and the others are as they were.
pub allocate_partition-free_stack :
    (partid i : ℕ) (p : PartitionPool)
    → i < length p.partitions
    → let (p', part_idx) = allocate_partition partid p in
      (part_idx ≡ first (free_stack p))
      × (free_stack p' ≡ rest (free_stack p))
      × (get_partition i p' ≡ (
          if is_owner i part_idx
          then initialize_for_partid partid (get_partition i p)
          else get_partition i p))
unfolding allocate_partition free_stack first rest get_partition stack_of is_owner
allocate_partition-free_stack partid i p l = elim (count_cases p.free_count) [
  | inl e ↦ rw (allocate_partition, e) (refl, ap (λ n. stack_of n p.free_list) e, refl)
  | inr (k, e) ↦
      rw (allocate_partition, e)
        (
          refl,
          refl,
          written p.partitions (get_or p.free_list k 0) i (new_partition 0)
              (initialize_for_partid partid) l,
        )
]

-- A release puts the index on top of the stack, where the free list has room, and changes no
-- partition.
pub release_partition-free_stack :
    (i : ℕ) (p : PartitionPool)
    → p.free_count < length p.free_list
    → (free_stack (release_partition i p) ≡ i ∷ free_stack p)
      × ((release_partition i p).partitions ≡ p.partitions)
unfolding release_partition free_stack stack_of
release_partition-free_stack i p l = (
  ap (λ n. stack_of n (set p.free_list p.free_count i)) {y = suc p.free_count} (omega arith)
      ∙ ap₂ ◌∷◌ (get_or-set_self p.free_list p.free_count i 0 l)
          (stack_of-set p.free_count p.free_count i p.free_list (omega arith)),
  refl,
)
