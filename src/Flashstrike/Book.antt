-- ===== src/Flashstrike/Book.antt =====
-- integrations/include/flashstrike/matching_engine/order_book.hpp, `OrderBook`: the pools, the map of
-- the orders' identifiers and the price levels of the two sides. A result of none is a failing
-- assertion.
pub mod Removal
use wirekrak.Common.{ℕ, zero, suc, Option, none, some, ◌==◌, if◌then◌else◌, ◌>>=◌}
use wirekrak.Flashstrike.Types.{
  Side, bid, ask, limit, gtc, OperationStatus, success, not_found, unchanged, bad_alloc, idmap_full,
  rejected,
}
use wirekrak.Flashstrike.IdMap.{OrderIdMap, new_map, find, insert_id, remove_id}
use wirekrak.Flashstrike.Pool.{Order, OrderPool, new_pool, get_order, put_order, allocate, release}
use wirekrak.Flashstrike.PartitionPool.{PartitionPool, new_partition_pool}
use wirekrak.Flashstrike.Store.{Store, View, new_store}
use wirekrak.Flashstrike.Store.Pricing

pub record Book : Type 0 where
  pub pool : OrderPool
  pub ids : OrderIdMap
  pub parts : PartitionPool
  pub bids : Store
  pub asks : Store

-- The number of orders is one more than `n`.
unfoldable pub new_book : ℕ → ℕ → ℕ → ℕ → Book
new_book n num_partitions partition_size partition_bits = record {
  pool = new_pool n;
  ids = new_map (suc n);
  parts = new_partition_pool num_partitions partition_size;
  bids = new_store num_partitions partition_bits;
  asks = new_store num_partitions partition_bits;
}

-- `get_store`, with the pools that the store refers to, and the book after a call of the store.
unfoldable pub get_store : Side → Book → View
get_store side b = record {
  store = elim side [ bid ↦ b.bids | ask ↦ b.asks ];
  pool = b.pool;
  parts = b.parts;
}

unfoldable pub put_store : Side → View → Book → Book
put_store bid v b = record b { pool = v.pool; parts = v.parts; bids = v.store }
put_store ask v b = record b { pool = v.pool; parts = v.parts; asks = v.store }

-- What `insert_order` writes into the slot.
unfoldable pub write_order : ℕ → Side → ℕ → ℕ → ℕ → Order → Order
write_order orderid side price qty filled o = record o {
  id = orderid;
  order_type = limit;
  tif = gtc;
  side = side;
  price = price;
  qty = qty;
  filled = filled;
}

unfoldable pub insert_order :
    ℕ → Side → ℕ → ℕ → ℕ → Book → Option (Book × OperationStatus × Option ℕ)
unfolding write_order get_store put_store Pricing.insert_order
insert_order orderid side price qty filled b =
    let (pool, slot) = allocate b.pool in
    elim slot [
      | none ↦ some (record b { pool = pool }, bad_alloc, none)
      | some order_idx ↦
          let (ids, inserted) = insert_id orderid (some order_idx) b.ids in
          if inserted
          then (do
            let o = write_order orderid side price qty filled (get_order order_idx pool)
            let written = record b { pool = put_order order_idx o pool; ids = ids }
            v ← Pricing.insert_order side order_idx (get_store side written)
            some (put_store side v written, success, some order_idx))
          else some (record b { pool = release order_idx pool; ids = ids }, idmap_full, none)
    ]

-- `reprice_order`, with the order that it reports, which it does not for an order that is not found.
unfoldable pub reprice_order : ℕ → ℕ → Book → Option (Book × OperationStatus × Option ℕ)
unfolding get_store put_store Pricing.reprice_order
reprice_order orderid zero b = some (b, rejected, none)
reprice_order orderid (suc n) b = elim (find orderid b.ids) [
  | none ↦ some (b, not_found, none)
  | some order_idx ↦
      let o = get_order order_idx b.pool in
      if o.price == suc n then some (b, unchanged, some order_idx) else (do
        v ← Pricing.reprice_order o.side order_idx (suc n) (get_store o.side b)
        some (put_store o.side v b, success, some order_idx))
]

unfoldable pub resize_order : ℕ → ℕ → Book → Option (Book × OperationStatus)
unfolding get_store put_store Pricing.resize_order
resize_order orderid zero b = some (b, rejected)
resize_order orderid (suc n) b = elim (find orderid b.ids) [
  | none ↦ some (b, not_found)
  | some order_idx ↦
      let o = get_order order_idx b.pool in
      if o.qty == suc n then some (b, unchanged) else (do
        v ← Pricing.resize_order order_idx (suc n) (get_store o.side b)
        some (put_store o.side v b, success))
]

-- `remove_order` of an order that the map finds at an index, or does not.
unfoldable pub remove_at : ℕ → Option ℕ → Book → Option (Book × OperationStatus)
unfolding get_store put_store Pricing.remove_order
remove_at orderid none b = some (b, not_found)
remove_at orderid (some order_idx) b = do
  let side = (get_order order_idx b.pool).side
  v ← Pricing.remove_order side order_idx (get_store side b)
  let removed = put_store side v b
  some (
    record removed {
      ids = (remove_id orderid removed.ids).0;
      pool = release order_idx removed.pool;
    },
    success,
  )

unfoldable pub remove_order : ℕ → Book → Option (Book × OperationStatus)
unfolding remove_at
remove_order orderid b = remove_at orderid (find orderid b.ids) b
