-- ===== src/Flashstrike/Pool.antt =====
-- integrations/include/flashstrike/matching_engine/order_pool.hpp, `OrderPool`: a fixed number of
-- orders with the free ones linked by `next_free`. An index is none for INVALID_INDEX. Prices and
-- quantities are not negative: the engine refuses other orders before they come here. An index is an
-- `OrderIdx`, of 32 bits with a sign: a pool has at most 2 ^ 31 orders.
pub mod FreeList
pub mod Laws
pub mod Runs
use wirekrak.Common.{
  ℕ, zero, suc, ◌+◌, ◌-◌, ◌%◌, ◌^◌, Bool, List, [], ◌∷◌, Option, none, some, length, get_or, set,
}
use wirekrak.Flashstrike.Types.{Side, bid, OrderType, limit, TimeInForce, gtc}

pub record Order : Type 0 where
  pub prev_idx : Option ℕ
  pub next_idx : Option ℕ
  pub next_free : Option ℕ
  pub id : ℕ
  pub order_type : OrderType
  pub tif : TimeInForce
  pub price : ℕ
  pub qty : ℕ
  pub filled : ℕ
  pub side : Side

pub record OrderPool : Type 0 where
  pub orders : List Order
  pub free_head : Option ℕ
  pub used_count : ℕ

-- What `pool_.resize` fills the pool with, and what stands for a slot out of range.
abbrev pub no_order : Order
no_order = record {
  prev_idx = some 0;
  next_idx = some 0;
  next_free = some 0;
  id = 0;
  order_type = limit;
  tif = gtc;
  price = 0;
  qty = 0;
  filled = 0;
  side = bid;
}

-- The orders from `i` on, of which `n` are followed by another: the loop of the constructor. The
-- index `i + 1` fits into an `OrderIdx` in a pool of at most 2 ^ 31 orders, and a larger one is
-- outside the model.
unfoldable pub link : ℕ → ℕ → List Order
link zero i = record no_order { next_free = none } ∷ []
link (suc n) i = record no_order { next_free = some (i + 1) } ∷ link n (i + 1)

-- The constructor asserts that the number of orders is positive; it is one more than `n`.
unfoldable pub new_pool : ℕ → OrderPool
unfolding link
new_pool n = record { orders = link n 0; free_head = some 0; used_count = 0 }

unfoldable pub capacity : OrderPool → ℕ
capacity p = length p.orders

unfoldable pub used : OrderPool → ℕ
used p = p.used_count

unfoldable pub free_slots : OrderPool → ℕ
free_slots p = (length p.orders + 2 ^ 64 - p.used_count) % 2 ^ 64

unfoldable pub get_order : ℕ → OrderPool → Order
get_order order_idx p = get_or p.orders order_idx no_order

-- A write through the reference that `get` returns.
unfoldable pub put_order : ℕ → Order → OrderPool → OrderPool
put_order order_idx o p = record p { orders = set p.orders order_idx o }

unfoldable pub allocate : OrderPool → OrderPool × Option ℕ
unfolding get_order
allocate p = elim p.free_head [
  | none ↦ (p, none)
  | some order_idx ↦
      let o = get_order order_idx p in
      (
        record {
          orders =
              set p.orders order_idx
                (record o { next_free = none; prev_idx = none; next_idx = none; qty = 0 });
          free_head = o.next_free;
          used_count = (p.used_count + 1) % 2 ^ 64;
        },
        some order_idx,
      )
]

unfoldable pub release : ℕ → OrderPool → OrderPool
unfolding get_order
release order_idx p = record {
  orders = set p.orders order_idx (record (get_order order_idx p) { next_free = p.free_head });
  free_head = some order_idx;
  used_count = (p.used_count + 2 ^ 64 - 1) % 2 ^ 64;
}
