-- ===== src/Flashstrike/Matching.antt =====
-- integrations/include/flashstrike/matching_engine/manager.hpp, `Manager`: an incoming order is matched
-- against the other side of the book, and what is left of a limit order rests in it. A result of
-- none is a failing assertion. The ring of trades is the list of the trades pushed to it: a push
-- waits for room.
pub mod Orders
pub mod Accounting
pub mod Limits
pub mod Outcome
use wirekrak.Common.{
  ℕ, zero, suc, ◌+◌, ◌-◌, ◌*◌, ◌%◌, ◌^◌, Bool, true, false, not, ◌||◌, ◌&&◌, List, [], ◌∷◌, ◌++◌,
  Option, none, some, ◌==◌, ltb, if◌then◌else◌, ◌>>=◌,
}
use wirekrak.Control.Sequence.{Sequence, next}
use wirekrak.Flashstrike.Types.{
  Side, bid, ask, OrderType, limit, market, gtc, OperationStatus, success, full_fill, partial_fill,
  no_match, rejected,
}
use wirekrak.Flashstrike.Pool.{Order, get_order, put_order}
use wirekrak.Flashstrike.Partition.{level}
use wirekrak.Flashstrike.PartitionPool.{get_partition}
use wirekrak.Flashstrike.Store.{
  crosses, get_best_price_level, get_level, level_at, put_partition, put_level,
}
use wirekrak.Flashstrike.Store.Linking.{subtract_quantity}
use wirekrak.Flashstrike.Book
use wirekrak.Flashstrike.Book.{get_store, put_store}

-- `NormalizedInstrument`, what the checks of an order read.
pub record Instrument : Type 0 where
  pub price_min_scaled : ℕ
  pub price_max_scaled : ℕ
  pub qty_min_scaled : ℕ
  pub qty_max_scaled : ℕ
  pub min_notional : ℕ

-- The fields of a trade event that the engine sets.
pub record Trade : Type 0 where
  pub seq_num : ℕ
  pub maker_order_id : ℕ
  pub taker_order_id : ℕ
  pub price : ℕ
  pub qty : ℕ
  pub taker_side : Side

pub record Manager : Type 0 where
  pub instrument : Instrument
  pub book : Book.Book
  pub trades_ring : List Trade
  pub seq_gen : Sequence

-- The incoming order: one of its own, or the order of the pool that is at an index.
pub data Taker : Type 0 where
  on_the_fly : Order → Taker
  resting : ℕ → Taker

-- What the matching of an order changes. `last_price` is none while it is not set.
pub record Match : Type 0 where
  pub manager : Manager
  pub taker : Taker
  pub trades : ℕ
  pub last_price : Option ℕ

unfoldable pub opposite : Side → Side
opposite bid = ask
opposite ask = bid

unfoldable pub incoming_order : Match → Order
incoming_order m = elim m.taker [
  | on_the_fly o ↦ o
  | resting order_idx ↦ get_order order_idx m.manager.book.pool
]

unfoldable pub put_book : Book.Book → Match → Match
put_book b m = record m { manager = record m.manager { book = b } }

-- `book_.get_order(order_idx) = o`.
unfoldable pub write_resting : ℕ → Order → Match → Match
unfolding put_book
write_resting order_idx o m =
    put_book (record m.manager.book { pool = put_order order_idx o m.manager.book.pool }) m

unfoldable pub write_incoming : Order → Match → Match
unfolding write_resting
write_incoming o m = elim m.taker [
  | on_the_fly o' ↦ record m { taker = on_the_fly o }
  | resting order_idx ↦ write_resting order_idx o m
]

unfoldable pub fill : ℕ → Order → Order
fill trade_qty o = record o { qty = o.qty - trade_qty; filled = o.filled + trade_qty }

unfoldable pub smaller : ℕ → ℕ → ℕ
smaller a b = if ltb b a then b else a

-- `subtract_quantity` of a level of a side's store.
unfoldable pub subtract_at : Side → ℕ → ℕ → ℕ → Book.Book → Option Book.Book
unfolding get_store put_store put_partition put_level subtract_quantity
subtract_at side part pl_idx qty b = do
  let v = get_store side b
  let p = get_partition part v.parts
  pl ← subtract_quantity qty (level pl_idx p)
  some (put_store side (put_partition part (put_level pl_idx pl p) v) b)

-- `emit_trade_event_`.
unfoldable pub emit_trade_event : ℕ → ℕ → ℕ → ℕ → Side → Match → Match
unfolding next
emit_trade_event maker_order_id taker_order_id price qty taker_side m =
    let (seq_gen, seq_num) = next m.manager.seq_gen in
    let ev : Trade = record {
      seq_num = seq_num;
      maker_order_id = maker_order_id;
      taker_order_id = taker_order_id;
      price = price;
      qty = qty;
      taker_side = taker_side;
    } in
    record m {
      manager = record m.manager {
        trades_ring = m.manager.trades_ring ++ (ev ∷ []);
        seq_gen = seq_gen;
      };
    }

-- The removal of the order at an index where it is filled.
unfoldable pub remove_filled : ℕ → Book.Book → Option Book.Book
unfolding Book.remove_order
remove_filled order_idx b =
    let o = get_order order_idx b.pool in
    if o.qty == 0 then (do (b', status) ← Book.remove_order o.id b; some b') else some b

-- The end of the body of the loop: the statistics and the trade event. The book is `b3` before the
-- removal and `b4` after it.
unfoldable pub finish_trade : Side → ℕ → ℕ → ℕ → ℕ → Match → Book.Book → Book.Book → Match
unfolding incoming_order put_book emit_trade_event level_at opposite
finish_trade side part pl_idx order_idx trade_qty m b3 b4 =
    let price = (level_at part pl_idx (get_store (opposite side) b3)).price in
    let m4 = record (put_book b4 m) { last_price = some price; trades = (m.trades + 1) % 2 ^ 32 } in
    let incoming = incoming_order m4 in
    emit_trade_event (get_order order_idx b4.pool).id incoming.id price trade_qty incoming.side m4

-- The body of the loop of `match_order_`, for the order `order_idx` at the head of a level.
unfoldable pub trade_with : Side → ℕ → ℕ → ℕ → Match → Option Match
unfolding incoming_order write_incoming write_resting fill smaller subtract_at remove_filled
    finish_trade opposite
trade_with side part pl_idx order_idx m = do
  let incoming = incoming_order m
  let trade_qty = smaller incoming.qty (get_order order_idx m.manager.book.pool).qty
  let m1 = write_incoming (fill trade_qty incoming) m
  let m2 = write_resting order_idx (fill trade_qty (get_order order_idx m1.manager.book.pool)) m1
  b3 ← subtract_at (opposite side) part pl_idx trade_qty m2.manager.book
  b4 ← remove_filled order_idx b3
  some (finish_trade side part pl_idx order_idx trade_qty m2 b3 b4)

-- One round of the loop of `match_order_`, where there is one: the test of the loop and the body, for
-- the head of the best level, and for the best level.
unfoldable pub round_with : Side → ℕ → ℕ → Match → Option ℕ → Option (Option Match)
unfolding incoming_order trade_with
round_with side part pl_idx m none = some none
round_with side part pl_idx m (some order_idx) =
    if (incoming_order m).qty == 0
    then some none
    else (do m' ← trade_with side part pl_idx order_idx m; some (some m'))

unfoldable pub round_at : Side → Match → Option (ℕ × ℕ) → Option (Option Match)
unfolding opposite level_at round_with
round_at side m none = some none
round_at side m (some (part, pl_idx)) =
    let best = level_at part pl_idx (get_store (opposite side) m.manager.book) in
    round_with side part pl_idx m best.head_idx

unfoldable pub match_round : Side → Match → Option (Option Match)
unfolding opposite round_at
match_round side m = do
  best ← get_best_price_level (get_store (opposite side) m.manager.book)
  round_at side m best

-- At most `fuel` rounds of the loop, with whether the loop ended.
unfoldable pub match_rounds : ℕ → Side → Match → Option (Match × Bool)
unfolding match_round
match_rounds zero side m = some (m, false)
match_rounds (suc fuel) side m = do
  round ← match_round side m
  elim round [ none ↦ some (m, true) | some m' ↦ match_rounds fuel side m' ]

-- The early exit: a limit order that does not cross the best level.
unfoldable pub is_out_of_reach : Side → Match → Option Bool
unfolding opposite incoming_order level_at crosses
is_out_of_reach side m = do
  let v = get_store (opposite side) m.manager.book
  let incoming = incoming_order m
  best ← get_best_price_level v
  some (elim best [
    | none ↦ false
    | some (part, pl_idx) ↦ elim incoming.order_type [
      | limit ↦ not (crosses side incoming.price (level_at part pl_idx v).price)
      | market ↦ false
    ]
  ])

unfoldable pub fill_status : Order → OperationStatus
fill_status o = if ltb 0 o.filled then if o.qty == 0 then full_fill else partial_fill else no_match

-- `match_order_`, in at most `fuel` rounds.
unfoldable pub match_order : ℕ → Side → Match → Option (Match × OperationStatus)
unfolding is_out_of_reach match_rounds fill_status
match_order fuel side m = do
  let started = record m { trades = 0 }
  out ← is_out_of_reach side started
  if out then some (record started { last_price = some 0 }, no_match) else (do
    (m', ended) ← match_rounds fuel side started
    some (m', fill_status (incoming_order m')))
