-- ===== src/Tests/Matching.antt =====
-- Tests and witnesses of the matching.
use mathlib.Core.Option
use wirekrak.Common.{Bool, is_owner, ◌≡◌, refl, true, false, Option, none, some, arith}
use wirekrak.Control.Sequence.{next}
use wirekrak.Flashstrike.IdMap.{hash_order_id, slot, entry, locate, find, remove_id}
use wirekrak.Flashstrike.Pool.{get_order, put_order, release}
use wirekrak.Flashstrike.Partition.{level, is_nonzero, all_zero, is_empty, put_bit, clear_active}
use wirekrak.Flashstrike.PartitionPool.{get_partition}
use wirekrak.Flashstrike.Store.{
  is_better, crosses, partition_id, offset_in_partition, entry_of, find_partition, put_partition,
  put_level, get_best_price_level, level_at,
}
use wirekrak.Flashstrike.Store.Linking.{
  subtract_quantity, set_next, set_prev, remove_order_links, remove_level_links, unlink_order,
}
use wirekrak.Flashstrike.Store.Pricing
use wirekrak.Flashstrike.Book
use wirekrak.Flashstrike.Matching.{
  opposite, incoming_order, put_book, write_resting, write_incoming, fill, smaller, subtract_at,
  emit_trade_event, remove_filled, finish_trade, trade_with, round_with, round_at, match_round,
  match_rounds, is_out_of_reach, fill_status, match_order,
}
use wirekrak.Flashstrike.Matching.Orders.{new_order}
use wirekrak.Flashstrike.Types.{bid, limit, OperationStatus, rejected}
use wirekrak.Flashstrike.Pool.{Order}
use wirekrak.Flashstrike.Matching.{Match}
use wirekrak.Flashstrike.Matching.Accounting.{taking}
use wirekrak.Flashstrike.Matching.Limits.{as_market, for_market}
use wirekrak.Flashstrike.Matching.Outcome.{
  IsMatched, has_empty_trade, added_trades, match_order-IsMatched, match_rounds-ends,
  match_order-as_market,
}
use wirekrak.Tests.Engine.{one_ask_engine}

-- A limit bid of eight at 1.
abbrev bid_for_eight : Order
bid_for_eight = new_order 9 limit bid 1 8

abbrev started : Match
started = taking bid_for_eight one_ask_engine 0 none

abbrev match_of : Option (Match × OperationStatus) → Match × OperationStatus
match_of none = (started, rejected)
match_of (some r) = r

abbrev crossed : Match × OperationStatus
crossed = match_of (match_order 9 bid started)

crosses_all : match_order 9 bid started ≡ some crossed
unfolding next is_owner hash_order_id slot entry locate find remove_id get_order put_order release
    level is_nonzero all_zero is_empty clear_active put_bit get_partition is_better entry_of
    find_partition partition_id offset_in_partition put_partition put_level get_best_price_level
    level_at subtract_quantity set_next set_prev remove_order_links remove_level_links unlink_order
    Pricing.consider Pricing.scan_bits Pricing.scan_words Pricing.recompute_global_best
    Pricing.unlink_order_and_update_partition Pricing.remove_order Book.get_store Book.put_store
    Book.remove_at Book.remove_order opposite incoming_order put_book write_resting write_incoming
    fill smaller subtract_at emit_trade_event remove_filled finish_trade trade_with round_with
    round_at match_round match_rounds is_out_of_reach crosses fill_status match_order new_order
crosses_all = refl

match_order-IsMatched_example : IsMatched bid_for_eight one_ask_engine crossed.0 crossed.1
match_order-IsMatched_example =
    match_order-IsMatched 9 bid bid_for_eight one_ask_engine 0 none crossed.0 crossed.1 crosses_all

abbrev rounds_of : Option (Match × Bool) → Match × Bool
rounds_of none = (started, false)
rounds_of (some r) = r

abbrev ended : Match × Bool
ended = rounds_of (match_rounds 9 bid started)

ends_all : match_rounds 9 bid started ≡ some ended
unfolding next is_owner hash_order_id slot entry locate find remove_id get_order put_order release
    level is_nonzero all_zero is_empty clear_active put_bit get_partition is_better entry_of
    find_partition partition_id offset_in_partition put_partition put_level get_best_price_level
    level_at subtract_quantity set_next set_prev remove_order_links remove_level_links unlink_order
    Pricing.consider Pricing.scan_bits Pricing.scan_words Pricing.recompute_global_best
    Pricing.unlink_order_and_update_partition Pricing.remove_order Book.get_store Book.put_store
    Book.remove_at Book.remove_order opposite incoming_order put_book write_resting write_incoming
    fill smaller subtract_at emit_trade_event remove_filled finish_trade trade_with round_with
    round_at match_round match_rounds is_out_of_reach crosses fill_status match_order new_order
ends_all = refl

no_empty_trade :
    has_empty_trade (added_trades one_ask_engine.trades_ring ended.0.manager.trades_ring) ≡ false
unfolding has_empty_trade added_trades next is_owner hash_order_id slot entry locate find remove_id
    get_order put_order release level is_nonzero all_zero is_empty clear_active put_bit
    get_partition is_better entry_of find_partition partition_id offset_in_partition put_partition
    put_level get_best_price_level level_at subtract_quantity set_next set_prev remove_order_links
    remove_level_links unlink_order Pricing.consider Pricing.scan_bits Pricing.scan_words
    Pricing.recompute_global_best Pricing.unlink_order_and_update_partition Pricing.remove_order
    Book.get_store Book.put_store Book.remove_at Book.remove_order opposite incoming_order put_book
    write_resting write_incoming fill smaller subtract_at emit_trade_event remove_filled
    finish_trade trade_with round_with round_at match_round match_rounds is_out_of_reach crosses
    fill_status match_order new_order
no_empty_trade = refl

match_rounds-ends_example : ended.1 ≡ true
unfolding new_order
match_rounds-ends_example =
    match_rounds-ends 9 bid bid_for_eight one_ask_engine 0 none ended.0 ended.1 (omega arith)
      ends_all no_empty_trade

crosses_best : is_out_of_reach bid (taking bid_for_eight one_ask_engine 0 none) ≡ some false
unfolding level_at level get_partition Book.get_store get_best_price_level opposite find_partition
    entry_of partition_id offset_in_partition is_out_of_reach crosses incoming_order new_order
crosses_best = refl

match_order-as_market_example :
    match_order 9 bid (taking (as_market bid_for_eight) one_ask_engine 0 none)
    ≡ Option.map (λ r. (for_market r.0, r.1)) (match_order 9 bid started)
match_order-as_market_example =
    match_order-as_market 9 bid bid_for_eight one_ask_engine 0 none crosses_best
