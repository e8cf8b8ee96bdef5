-- ===== src/Flashstrike/Matching/Orders.antt =====
-- integrations/include/flashstrike/matching_engine/manager.hpp, `Manager`: the checks of an order, and
-- the operations that a client calls. The loop of the matching runs for at most `fuel` rounds.
use wirekrak.Common.{
  ℕ, ◌-◌, ◌*◌, Bool, true, false, not, ◌&&◌, ◌||◌, Option, none, some, ltb, if◌then◌else◌, ◌>>=◌,
}
use wirekrak.Flashstrike.Types.{
  Side, OrderType, limit, market, gtc, OperationStatus, success, full_fill, partial_fill, rejected,
}
use wirekrak.Flashstrike.Pool.{Order, get_order}
use wirekrak.Flashstrike.Store.{get_level}
use wirekrak.Flashstrike.Book
use wirekrak.Flashstrike.Book.{get_store, put_store}
use wirekrak.Flashstrike.Matching.{
  Instrument, Manager, on_the_fly, resting, incoming_order, match_order, subtract_at,
}

unfoldable pub is_full_fill : OperationStatus → Bool
is_full_fill status = elim status [ full_fill ↦ true | _ ↦ false ]

-- A full or a partial fill.
unfoldable pub is_matched : OperationStatus → Bool
is_matched status = elim status [ full_fill ↦ true | partial_fill ↦ true | _ ↦ false ]

-- What `match_resting_order_` does after the matching: the level's quantity, and the removal.
unfoldable pub settle_level : Side → ℕ → ℕ → OperationStatus → Book.Book → Option Book.Book
unfolding is_matched get_level get_store put_store subtract_at
settle_level side order_idx qty status b =
    if is_matched status
    then (do
      let o = get_order order_idx b.pool
      (v, part, pl_idx) ← get_level o.price (get_store side b)
      subtract_at side part pl_idx (qty - o.qty) (put_store side v b))
    else some b

unfoldable pub settle_order : ℕ → OperationStatus → Book.Book → Option Book.Book
unfolding is_full_fill Book.remove_order
settle_order order_idx status b =
    if is_full_fill status
    then (do (removed, found) ← Book.remove_order (get_order order_idx b.pool).id b; some removed)
    else some b

-- `match_resting_order_`, of the order at an index of the pool.
unfoldable pub match_resting_order : ℕ → Side → ℕ → Manager → Option (Manager × OperationStatus)
unfolding match_order settle_level settle_order
match_resting_order fuel side order_idx manager = do
  let qty = (get_order order_idx manager.book.pool).qty
  (m, status) ←
      match_order fuel side
        (record { manager = manager; taker = resting order_idx; trades = 0; last_price = none })
  b ← settle_level side order_idx qty status m.manager.book
  b' ← settle_order order_idx status b
  some (record m.manager { book = b' }, status)

-- `validate_order_`. The product stays below 2 ^ 63.
unfoldable pub validate_order : Instrument → Order → Bool
validate_order instrument o =
    not (ltb o.price instrument.price_min_scaled || ltb instrument.price_max_scaled o.price)
    && not (ltb o.qty instrument.qty_min_scaled || ltb instrument.qty_max_scaled o.qty)
    && not (ltb (o.price * o.qty) instrument.min_notional)

-- A market order.
unfoldable pub is_market : Order → Bool
is_market o = elim o.order_type [ limit ↦ false | market ↦ true ]

-- The status of an order that came to rest, where the matching ended with `status`.
unfoldable pub resting_status : Order → OperationStatus → OperationStatus → OperationStatus
resting_status o status insert_status = elim insert_status [
  | success ↦ if ltb 0 o.filled then if ltb 0 o.qty then partial_fill else full_fill else status
  | other ↦ other
]

-- `process_order` of an order of a side, with the index at which it rests.
unfoldable pub process : ℕ → Side → Order → Manager → Option (Manager × OperationStatus × Option ℕ)
unfolding validate_order match_order is_market is_full_fill incoming_order Book.insert_order
    resting_status
process fuel side order manager =
    if not (validate_order manager.instrument order) then some (manager, rejected, none) else (do
      (m, status) ←
          match_order fuel side
            (record { manager = manager; taker = on_the_fly order; trades = 0; last_price = none })
      let o = incoming_order m
      if is_market o || is_full_fill status then some (m.manager, status, none) else (do
        (b, insert_status, order_idx) ←
            Book.insert_order o.id side o.price o.qty o.filled m.manager.book
        some (record m.manager { book = b }, resting_status o status insert_status, order_idx)))

-- `Order order{}`, with the fields that `process_order` sets.
unfoldable pub new_order : ℕ → OrderType → Side → ℕ → ℕ → Order
new_order order_id order_type side price qty = record {
  prev_idx = some 0;
  next_idx = some 0;
  next_free = some 0;
  id = order_id;
  order_type = order_type;
  tif = gtc;
  price = price;
  qty = qty;
  filled = 0;
  side = side;
}

-- `process_order`.
unfoldable pub process_order :
    ℕ → ℕ → OrderType → Side → ℕ → ℕ → Manager → Option (Manager × OperationStatus × Option ℕ)
unfolding process new_order
process_order fuel order_id order_type side price qty manager =
    process fuel side (new_order order_id order_type side price qty) manager

-- `modify_order_price`: the assertions on the new price, the book, and the matching of the order.
unfoldable pub modify_order_price : ℕ → ℕ → ℕ → Manager → Option (Manager × OperationStatus)
unfolding Book.reprice_order match_resting_order is_matched
modify_order_price fuel orderid new_price manager =
    if ltb 0 new_price && ltb new_price manager.instrument.price_max_scaled
    then (do
      (b, status, order) ← Book.reprice_order orderid new_price manager.book
      let repriced = record manager { book = b }
      elim status [
        | success ↦ elim order [
          | none ↦ none
          | some order_idx ↦ (do
            (matched, match_status) ←
                match_resting_order fuel (get_order order_idx b.pool).side order_idx repriced
            some (matched, if is_matched match_status then match_status else success))
        ]
        | other ↦ some (repriced, other)
      ])
    else none

unfoldable pub modify_order_quantity : ℕ → ℕ → Manager → Option (Manager × OperationStatus)
unfolding Book.resize_order
modify_order_quantity orderid new_qty manager =
    if ltb 0 new_qty
    then (do
      (b, status) ← Book.resize_order orderid new_qty manager.book
      some (record manager { book = b }, status))
    else none

unfoldable pub cancel_order : ℕ → Manager → Option (Manager × OperationStatus)
unfolding Book.remove_order
cancel_order orderid manager = do
  (b, status) ← Book.remove_order orderid manager.book
  some (record manager { book = b }, status)
