-- ===== src/Flashstrike/IdMap.antt =====
-- integrations/include/flashstrike/matching_engine/order_id_map.hpp, `OrderIdMap`: an open-addressing
-- table with linear probing. An order is known by its index in the pool, none for INVALID_INDEX. The
-- capacity is a power of two of at most 2 ^ 31, so `& mask_` is the remainder by it.
pub mod Probing
pub mod Invariant
pub mod Write
pub mod Laws
pub mod Full
use wirekrak.Common.{
  ℕ, zero, suc, ◌+◌, ◌-◌, ◌*◌, ◌%◌, ◌^◌, Bool, true, false, ◌||◌, List, Option, none, some, ◌==◌,
  ltb, is_some, if◌then◌else◌, get_or, set, replicate, map,
}

pub record Entry : Type 0 where
  pub key : ℕ
  pub val : Option ℕ

pub record OrderIdMap : Type 0 where
  pub table : List Entry
  pub capacity : ℕ
  pub used : ℕ

abbrev pub empty_key : ℕ
empty_key = 0

abbrev pub tombstone_key : ℕ
tombstone_key = 4294967295

abbrev pub blank : Entry
blank = record { key = empty_key; val = none }

-- The loop that rounds up to a power of two, in at most `fuel` rounds.
unfoldable pub round_up : ℕ → ℕ → ℕ → ℕ
round_up zero capacity wanted = capacity
round_up (suc fuel) capacity wanted =
    let rest = round_up fuel (capacity * 2) wanted in if ltb capacity wanted then rest else capacity

-- The product with LOAD_FACTOR_MULTIPLIER is exact for capacities up to 2 ^ 24.
unfoldable pub table_capacity : ℕ → ℕ
unfolding round_up
table_capacity capacity =
    let scaled = capacity * 2 in round_up 64 1 (if ltb scaled 16 then 16 else scaled)

unfoldable pub new_map : ℕ → OrderIdMap
unfolding table_capacity
new_map capacity =
    let size = table_capacity capacity in
    record { table = replicate size blank; capacity = size; used = 0 }

unfoldable pub hash_order_id : ℕ → ℕ
hash_order_id ordid = ordid % 2 ^ 32 * 2654435761 % 2 ^ 32

-- `(h + i) & mask_`, with `h = hash_orderId_(ordid) & mask_`.
unfoldable pub slot : ℕ → ℕ → ℕ → ℕ
unfolding hash_order_id
slot capacity ordid i = (hash_order_id ordid % capacity + i) % capacity

unfoldable pub entry : List Entry → ℕ → Entry
entry table idx = get_or table idx blank

module _ (capacity ordid : ℕ) where
  -- The loop of `find` and of `remove`, from step `i` on: the place of the key.
  unfoldable pub locate : ℕ → ℕ → List Entry → Option ℕ
  unfolding slot entry
  locate zero i table = none
  locate (suc fuel) i table =
      let idx = slot capacity ordid i in
      let key = (entry table idx).key in
      let rest = locate fuel (suc i) table in
      if key == empty_key then none else if key == ordid then some idx else rest

  -- The loop of `insert`: the first place that is empty or was removed.
  unfoldable pub find_free : ℕ → ℕ → List Entry → Option ℕ
  unfolding slot entry
  find_free zero i table = none
  find_free (suc fuel) i table =
      let idx = slot capacity ordid i in
      let key = (entry table idx).key in
      let rest = find_free fuel (suc i) table in
      if key == empty_key || key == tombstone_key then some idx else rest

unfoldable pub find : ℕ → OrderIdMap → Option ℕ
unfolding locate entry
find ordid m = elim (locate m.capacity ordid m.capacity 0 m.table) [
  | none ↦ none
  | some idx ↦ (entry m.table idx).val
]

unfoldable pub contains_id : ℕ → OrderIdMap → Bool
unfolding find
contains_id ordid m = is_some (find ordid m)

unfoldable pub insert_id : ℕ → Option ℕ → OrderIdMap → OrderIdMap × Bool
unfolding find_free
insert_id ordid order_idx m = elim (find_free m.capacity ordid m.capacity 0 m.table) [
  | none ↦ (m, false)
  | some idx ↦ (
    record m {
      table = set m.table idx (record { key = ordid; val = order_idx });
      used = (m.used + 1) % 2 ^ 64;
    },
    true,
  )
]

unfoldable pub remove_id : ℕ → OrderIdMap → OrderIdMap × Bool
unfolding locate
remove_id ordid m = elim (locate m.capacity ordid m.capacity 0 m.table) [
  | none ↦ (m, false)
  | some idx ↦ (
    record m {
      table = set m.table idx (record { key = tombstone_key; val = none });
      used = (m.used + 2 ^ 64 - 1) % 2 ^ 64;
    },
    true,
  )
]

unfoldable pub clear_ids : OrderIdMap → OrderIdMap
clear_ids m = record m { table = map (λ e. blank) m.table; used = 0 }

unfoldable pub free_slots : OrderIdMap → ℕ
free_slots m = (m.capacity + 2 ^ 64 - m.used) % 2 ^ 64
