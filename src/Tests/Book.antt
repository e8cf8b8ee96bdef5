-- ===== src/Tests/Book.antt =====
-- Tests and witnesses of the price levels and the order book.
use wirekrak.Common.{
  Bool, is_owner, contains, ◌≡◌, refl, true, false, [], ◌∷◌, Option, none, some, arith,
}
use wirekrak.Control.Sequence.{next}
use wirekrak.Flashstrike.IdMap.{hash_order_id, slot, entry, locate, find, remove_id}
use wirekrak.Flashstrike.Pool.{get_order, put_order, release}
use wirekrak.Flashstrike.Partition.{level, is_nonzero, all_zero, is_empty, put_bit, clear_active}
use wirekrak.Flashstrike.PartitionPool.{get_partition}
use wirekrak.Flashstrike.Store.{
  is_better, crosses, partition_id, offset_in_partition, entry_of, find_partition, put_partition,
  put_level, get_best_price_level, level_at,
}
use wirekrak.Flashstrike.Store.Linking.{
  subtract_quantity, set_next, set_prev, link_order, remove_order_links, remove_level_links,
  unlink_order,
}
use wirekrak.Flashstrike.Store.Pricing
use wirekrak.Flashstrike.Book
use wirekrak.Flashstrike.Matching.{
  opposite, incoming_order, put_book, write_resting, write_incoming, fill, smaller, subtract_at,
  emit_trade_event, remove_filled, finish_trade, trade_with, round_with, round_at, match_round,
  match_rounds, is_out_of_reach, fill_status, match_order,
}
use wirekrak.Flashstrike.Matching.Orders.{new_order}
use wirekrak.Flashstrike.Types.{ask, limit, OperationStatus, rejected}
use wirekrak.Flashstrike.Store.{View}
use wirekrak.Flashstrike.Store.Segment.{Seg, IsDistinct}
use wirekrak.Flashstrike.Store.Queue.{IsQueue, sum_qty, has_orders}
use wirekrak.Flashstrike.Store.Queue.Levels.{
  HasLevel, level_of, link_order-IsQueue, unlink_order-IsQueue,
}
use wirekrak.Flashstrike.Store.Stale.{unlink_order_and_update_partition-best_price}
use wirekrak.Flashstrike.Book.Removal.{IsRemoved, remove_order-IsRemoved}
use wirekrak.Tests.Engine.{full_map-IsValid, resting_ask, one_ask_engine}

abbrev book_of : Option (Book.Book × OperationStatus) → Book.Book × OperationStatus
book_of none = (one_ask_engine.book, rejected)
book_of (some r) = r

abbrev cancelled : Book.Book × OperationStatus
cancelled = book_of (Book.remove_order 5 one_ask_engine.book)

cancels : Book.remove_order 5 one_ask_engine.book ≡ some cancelled
unfolding next is_owner hash_order_id slot entry locate find remove_id get_order put_order release
    level is_nonzero all_zero is_empty clear_active put_bit get_partition is_better entry_of
    find_partition partition_id offset_in_partition put_partition put_level get_best_price_level
    level_at subtract_quantity set_next set_prev remove_order_links remove_level_links unlink_order
    Pricing.consider Pricing.scan_bits Pricing.scan_words Pricing.recompute_global_best
    Pricing.unlink_order_and_update_partition Pricing.remove_order Book.get_store Book.put_store
    Book.remove_at Book.remove_order opposite incoming_order put_book write_resting write_incoming
    fill smaller subtract_at emit_trade_event remove_filled finish_trade trade_with round_with
    round_at match_round match_rounds is_out_of_reach crosses fill_status match_order new_order
cancels = refl

remove_order-IsRemoved_example : IsRemoved 5 5 one_ask_engine.book cancelled.0 cancelled.1
remove_order-IsRemoved_example =
    remove_order-IsRemoved 5 5 one_ask_engine.book cancelled.0 cancelled.1
      (omega arith, omega arith) (omega arith, omega arith) full_map-IsValid cancels

-- The asks, with an order of two behind the one that rests.
abbrev asks_view : View
asks_view = record {
  store = one_ask_engine.book.asks;
  pool = record {
    orders = resting_ask ∷ new_order 8 limit ask 1 2 ∷ [];
    free_head = none;
    used_count = 2;
  };
  parts = one_ask_engine.book.parts;
}

one_waiting : IsQueue asks_view.pool (level_of 1 0 asks_view) (0 ∷ [])
unfolding IsQueue IsDistinct Seg sum_qty level_of level_at level get_partition get_order new_order
    contains offset_in_partition
one_waiting = ((refl, tt), (omega arith, tt), (refl, refl, (refl, refl)), refl, refl)

has_level : HasLevel 1 0 asks_view
unfolding HasLevel offset_in_partition get_order new_order get_partition
has_level = (omega arith, omega arith)

new : contains 1 (0 ∷ []) ≡ false
unfolding contains
new = refl

link_order-IsQueue_example :
    let v' = link_order 1 0 asks_view in
    IsQueue v'.pool
      (level_at 0 (offset_in_partition asks_view.store (get_order 1 asks_view.pool).price) v')
      (0 ∷ 1 ∷ [])
link_order-IsQueue_example =
    link_order-IsQueue 1 0 asks_view (0 ∷ []) has_level (omega arith) new one_waiting

has_first_level : HasLevel 0 0 asks_view
unfolding HasLevel offset_in_partition get_order new_order get_partition
has_first_level = (omega arith, omega arith)

alone : IsQueue asks_view.pool (level_of 0 0 asks_view) (0 ∷ [])
unfolding IsQueue IsDistinct Seg sum_qty level_of level_at level get_partition get_order new_order
    contains offset_in_partition
alone = ((refl, tt), (omega arith, tt), (refl, refl, (refl, refl)), refl, refl)

unlink_order-IsQueue_example :
    (v' : View) × (active : Bool) × (unlink_order 0 0 asks_view ≡ some (v', active))
    × IsQueue v'.pool
        (level_at 0 (offset_in_partition asks_view.store (get_order 0 asks_view.pool).price) v')
        []
    × (active ≡ has_orders [])
unlink_order-IsQueue_example = unlink_order-IsQueue 0 0 asks_view [] [] has_first_level alone

abbrev view_of : Option (View × Bool) → View × Bool
view_of none = (asks_view, false)
view_of (some r) = r

abbrev emptied : View × Bool
emptied = view_of (Pricing.unlink_order_and_update_partition ask 0 0 asks_view)

empties : Pricing.unlink_order_and_update_partition ask 0 0 asks_view ≡ some emptied
unfolding next is_owner hash_order_id slot entry locate find remove_id get_order put_order release
    level is_nonzero all_zero is_empty clear_active put_bit get_partition is_better entry_of
    find_partition partition_id offset_in_partition put_partition put_level get_best_price_level
    level_at subtract_quantity set_next set_prev remove_order_links remove_level_links unlink_order
    Pricing.consider Pricing.scan_bits Pricing.scan_words Pricing.recompute_global_best
    Pricing.unlink_order_and_update_partition Pricing.remove_order Book.get_store Book.put_store
    Book.remove_at Book.remove_order opposite incoming_order put_book write_resting write_incoming
    fill smaller subtract_at emit_trade_event remove_filled finish_trade trade_with round_with
    round_at match_round match_rounds is_out_of_reach crosses fill_status match_order new_order
empties = refl

is_emptied : is_empty (get_partition 0 emptied.0.parts) ≡ true
unfolding next is_owner hash_order_id slot entry locate find remove_id get_order put_order release
    level is_nonzero all_zero is_empty clear_active put_bit get_partition is_better entry_of
    find_partition partition_id offset_in_partition put_partition put_level get_best_price_level
    level_at subtract_quantity set_next set_prev remove_order_links remove_level_links unlink_order
    Pricing.consider Pricing.scan_bits Pricing.scan_words Pricing.recompute_global_best
    Pricing.unlink_order_and_update_partition Pricing.remove_order Book.get_store Book.put_store
    Book.remove_at Book.remove_order opposite incoming_order put_book write_resting write_incoming
    fill smaller subtract_at emit_trade_event remove_filled finish_trade trade_with round_with
    round_at match_round match_rounds is_out_of_reach crosses fill_status match_order new_order
is_emptied = refl

unlink_order_and_update_partition-best_price_example :
    (get_partition 0 emptied.0.parts).best_price ≡ (get_partition 0 asks_view.parts).best_price
unlink_order_and_update_partition-best_price_example =
    unlink_order_and_update_partition-best_price ask 0 0 asks_view emptied.0 emptied.1 (omega arith)
      empties is_emptied
