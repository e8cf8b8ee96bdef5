-- ===== src/Flashstrike/Store/Linking.antt =====
-- integrations/include/flashstrike/matching_engine/price_level_store.hpp: linking an order into the
-- list of its price level, and unlinking it. Quantities stay below 2 ^ 63.
use wirekrak.Common.{
  ℕ, ◌+◌, ◌-◌, Bool, true, false, Option, none, some, ltb, if◌then◌else◌, is_owner, ◌>>=◌,
}
use wirekrak.Flashstrike.Partition.{Partition, PriceLevel, set_active, clear_active, level}
use wirekrak.Flashstrike.PartitionPool.{get_partition}
use wirekrak.Flashstrike.Pool.{Order, OrderPool, get_order, put_order}
use wirekrak.Flashstrike.Store.{View, offset_in_partition, put_partition, put_level}

-- A sum stays below 2 ^ 63, the range of `Quantity`, where the assertion of the source holds.
unfoldable pub add_quantity : ℕ → PriceLevel → PriceLevel
add_quantity qty pl = record pl { total_qty = pl.total_qty + qty }

-- The assertion fails where the total would be negative.
unfoldable pub subtract_quantity : ℕ → PriceLevel → Option PriceLevel
subtract_quantity qty pl =
    if ltb pl.total_qty qty then none else some (record pl { total_qty = pl.total_qty - qty })

-- `order_pool_.get(i).next_idx = j`, and likewise `prev_idx`, where `i` is an index.
unfoldable pub set_next : Option ℕ → Option ℕ → OrderPool → OrderPool
set_next none j pool = pool
set_next (some i) j pool = put_order i (record (get_order i pool) { next_idx = j }) pool

unfoldable pub set_prev : Option ℕ → Option ℕ → OrderPool → OrderPool
set_prev none j pool = pool
set_prev (some i) j pool = put_order i (record (get_order i pool) { prev_idx = j }) pool

-- What `link_order_` does to the orders, where the level ends with the order `tail`.
unfoldable pub append_order : ℕ → Option ℕ → OrderPool → OrderPool
unfolding set_next
append_order order_idx tail pool =
    let o = record (get_order order_idx pool) { prev_idx = tail; next_idx = none } in
    set_next tail (some order_idx) (put_order order_idx o pool)

-- What it does to the level.
unfoldable pub append_level : ℕ → ℕ → PriceLevel → PriceLevel
unfolding add_quantity
append_level order_idx qty pl = record (add_quantity qty pl) {
  tail_idx = some order_idx;
  head_idx = elim pl.head_idx [ none ↦ some order_idx | some head ↦ some head ];
  active = true;
}

unfoldable pub link_order : ℕ → ℕ → View → View
unfolding append_order append_level
link_order order_idx part v =
    let o = get_order order_idx v.pool in
    let pl_idx = offset_in_partition v.store o.price in
    let p = get_partition part v.parts in
    let pl = level pl_idx p in
    let p' = put_level pl_idx (append_level order_idx o.qty pl) p in
    put_partition part (if pl.active then p' else set_active pl_idx p')
      (record v { pool = append_order order_idx pl.tail_idx v.pool })

-- What `unlink_order_` does to the orders.
unfoldable pub remove_order_links : ℕ → OrderPool → OrderPool
unfolding set_next set_prev
remove_order_links order_idx pool =
    let o = get_order order_idx pool in
    set_prev o.next_idx o.prev_idx (set_next o.prev_idx o.next_idx pool)

-- What it does to the level.
unfoldable pub remove_level_links : ℕ → Order → PriceLevel → Option PriceLevel
unfolding subtract_quantity
remove_level_links order_idx o pl = do
  pl' ← subtract_quantity o.qty pl
  let head = if is_owner order_idx pl.head_idx then o.next_idx else pl.head_idx
  some (record pl' {
    head_idx = head;
    tail_idx = if is_owner order_idx pl.tail_idx then o.prev_idx else pl.tail_idx;
    active = elim head [ none ↦ false | some i ↦ pl.active ];
  })

-- `unlink_order_`, with whether the level is active afterwards.
unfoldable pub unlink_order : ℕ → ℕ → View → Option (View × Bool)
unfolding remove_order_links remove_level_links
unlink_order order_idx part v = do
  let o = get_order order_idx v.pool
  let pl_idx = offset_in_partition v.store o.price
  let p = get_partition part v.parts
  pl ← remove_level_links order_idx o (level pl_idx p)
  let p' = put_level pl_idx pl p
  let p'' = elim pl.head_idx as (λ _. Partition) [ none ↦ clear_active pl_idx p' | some i ↦ p' ]
  some (put_partition part p'' (record v { pool = remove_order_links order_idx v.pool }), pl.active)
