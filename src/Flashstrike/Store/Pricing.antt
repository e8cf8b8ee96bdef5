-- ===== src/Flashstrike/Store/Pricing.antt =====
-- integrations/include/flashstrike/matching_engine/price_level_store.hpp: the best price of the store,
-- and inserting, removing, repricing and resizing an order. The side of a store is the template's
-- parameter. The order passed with its index is the pool's order at that index.
use wirekrak.Common.{
  ℕ, suc, ◌-◌, ◌*◌, Bool, true, false, not, ◌&&◌, ◌||◌, List, [], ◌∷◌, Option, none, some, ◌==◌,
  ltb, is_some, is_owner, if◌then◌else◌, length, ◌>>=◌,
}
use wirekrak.Flashstrike.Types.{Side}
use wirekrak.Flashstrike.Partition.{
  Word, Partition, level, is_empty, try_update_best, recompute_best,
}
use wirekrak.Flashstrike.PartitionPool.{get_partition}
use wirekrak.Flashstrike.Pool.{get_order, put_order}
use wirekrak.Flashstrike.Store.{
  Store, View, is_better, is_worse, partition_id, offset_in_partition, entry_of, find_partition,
  get_or_create_partition, put_partition, put_level,
}
use wirekrak.Flashstrike.Store.Linking.{add_quantity, subtract_quantity, link_order, unlink_order}

-- `try_update_global_best_`.
unfoldable pub try_update_global_best : Side → ℕ → Store → Store
unfolding is_better
try_update_global_best side price s =
    if not s.has_best
    then record s { best_price = some price; has_best = true }
    else if is_better side (some price) s.best_price
    then record s { best_price = some price }
    else s

-- What the scan of `recompute_global_best_` does with one partition.
unfoldable pub consider : Side → View → ℕ → Option ℕ → Option ℕ
unfolding entry_of is_better
consider side v partid new_best = elim (entry_of partid v.store) [
  | none ↦ new_best
  | some part ↦
      let best_price = (get_partition part v.parts).best_price in
      if not (is_some new_best) || is_better side best_price new_best then best_price else new_best
]

-- The scan of the bits of a word, from partition `partid` on, and of the words.
unfoldable pub scan_bits : Side → View → ℕ → Word → Option ℕ → Option ℕ
unfolding consider
scan_bits side v partid [] new_best = new_best
scan_bits side v partid (b ∷ bs) new_best =
    scan_bits side v (suc partid) bs (if b then consider side v partid new_best else new_best)

unfoldable pub scan_words : Side → View → ℕ → List Word → Option ℕ → Option ℕ
unfolding scan_bits
scan_words side v word [] new_best = new_best
scan_words side v word (mask ∷ words) new_best =
    scan_words side v (suc word) words (scan_bits side v (word * 64) mask new_best)

unfoldable pub recompute_global_best : Side → View → View
unfolding scan_words
recompute_global_best side v =
    let new_best = scan_words side v 0 v.store.active_bitmap none in
    record v { store = record v.store { best_price = new_best; has_best = is_some new_best } }

-- `unlink_order_and_update_partition_`, with whether the best price of the partition changed.
unfoldable pub unlink_order_and_update_partition : Side → ℕ → ℕ → View → Option (View × Bool)
unfolding unlink_order
unlink_order_and_update_partition side order_idx part v = do
  let price = (get_order order_idx v.pool).price
  (v', active) ← unlink_order order_idx part v
  let p = get_partition part v'.parts
  some (
      if active
      then (v', false)
      else if is_empty p
      then (v', true)
      else if is_owner price p.best_price
      then (put_partition part (recompute_best side p) v', true)
      else (v', false))

-- `insert_order_`.
unfoldable pub insert_order : Side → ℕ → View → Option View
unfolding get_or_create_partition partition_id link_order try_update_global_best
insert_order side order_idx v = do
  let price = (get_order order_idx v.pool).price
  (v', part) ← get_or_create_partition (partition_id v.store price) v
  let linked = link_order order_idx part v'
  let updated = record linked { store = try_update_global_best side price linked.store }
  some (put_partition part (try_update_best side price (get_partition part updated.parts)) updated)

-- `remove_order_`.
unfoldable pub remove_order : Side → ℕ → View → Option View
unfolding find_partition partition_id unlink_order_and_update_partition recompute_global_best
remove_order side order_idx v = do
  let price = (get_order order_idx v.pool).price
  part ← find_partition (partition_id v.store price) v.store
  (v', changed) ← unlink_order_and_update_partition side order_idx part v
  some (
      if v'.store.has_best && is_owner price v'.store.best_price && changed
      then recompute_global_best side v'
      else v')

unfoldable pub set_price : ℕ → ℕ → View → View
set_price order_idx price v = record v {
  pool = put_order order_idx (record (get_order order_idx v.pool) { price = price }) v.pool;
}

-- The move of an order between levels that the three cases share.
unfoldable pub relink : ℕ → ℕ → ℕ → ℕ → View → Option View
unfolding unlink_order set_price link_order
relink order_idx old_part new_part new_price v = do
  (v', active) ← unlink_order order_idx old_part v
  some (link_order order_idx new_part (set_price order_idx new_price v'))

unfoldable pub min_price : Partition → ℕ
unfolding level
min_price p = (level 0 p).price

unfoldable pub max_price : Partition → ℕ
unfolding level
max_price p = (level (length p.levels - 1) p).price

unfoldable pub is_within : ℕ → Partition → Bool
unfolding min_price max_price
is_within price p = not (ltb price (min_price p)) && not (ltb (max_price p) price)

-- `try_to_reprice_order_by_flashstrike_` in the same partition.
unfoldable pub reprice_within : Side → ℕ → ℕ → ℕ → View → Option (View × Bool)
unfolding is_worse is_better is_within relink
reprice_within side order_idx part new_price v =
    let price = (get_order order_idx v.pool).price in
    let p = get_partition part v.parts in
    if not (is_owner price v.store.best_price)
    then if is_worse side (some new_price) p.best_price
      then (do v' ← relink order_idx part part new_price v; some (v', true))
      else some (v, false)
    else if is_better side (some new_price) (some price) && is_within new_price p
    then (do
      v' ← relink order_idx part part new_price v
      some (record v' { store = record v'.store { best_price = some new_price } }, true))
    else some (v, false)

-- And across partitions.
unfoldable pub reprice_across : Side → ℕ → ℕ → ℕ → View → Option (View × Bool)
unfolding get_or_create_partition partition_id relink try_update_global_best
reprice_across side order_idx old_part new_price v =
    let price = (get_order order_idx v.pool).price in
    if not (is_owner price (get_partition old_part v.parts).best_price)
    then (do
      (v', new_part) ← get_or_create_partition (partition_id v.store new_price) v
      v'' ← relink order_idx old_part new_part new_price v'
      let updated =
          put_partition new_part (try_update_best side new_price (get_partition new_part v''.parts))
            v''
      some (record updated { store = try_update_global_best side new_price updated.store }, true))
    else some (v, false)

unfoldable pub try_to_reprice_order : Side → ℕ → ℕ → View → Option (View × Bool)
unfolding find_partition partition_id reprice_within reprice_across
try_to_reprice_order side order_idx new_price v = do
  let old_pid = partition_id v.store (get_order order_idx v.pool).price
  old_part ← find_partition old_pid v.store
  if old_pid == partition_id v.store new_price
      then reprice_within side order_idx old_part new_price v
      else reprice_across side order_idx old_part new_price v

unfoldable pub reprice_order : Side → ℕ → ℕ → View → Option View
unfolding try_to_reprice_order remove_order set_price insert_order
reprice_order side order_idx new_price v = do
  (v', done) ← try_to_reprice_order side order_idx new_price v
  if done then some v' else (do
    removed ← remove_order side order_idx v'
    insert_order side order_idx (set_price order_idx new_price removed))

-- `resize_order`: the assertion fails where the total would be negative.
unfoldable pub resize_order : ℕ → ℕ → View → Option View
unfolding find_partition partition_id offset_in_partition put_level add_quantity subtract_quantity
resize_order order_idx new_qty v = do
  let o = get_order order_idx v.pool
  part ← find_partition (partition_id v.store o.price) v.store
  let pl_idx = offset_in_partition v.store o.price
  let p = get_partition part v.parts
  pl ← subtract_quantity o.qty (add_quantity new_qty (level pl_idx p))
  some (
      put_partition part (put_level pl_idx pl p)
        (record v { pool = put_order order_idx (record o { qty = new_qty }) v.pool }))
