-- ===== src/Tests/Engine.antt =====
-- A matching engine with one order, for the tests of its parts.
use wirekrak.Common.{
  ap, is_some, ℕ, zero, suc, ◌<◌, ◌≡◌, refl, true, false, [], ◌∷◌, none, some, arith,
}
use wirekrak.Control.Sequence.{reset}
use wirekrak.Flashstrike.IdMap.{slot, entry}
use wirekrak.Flashstrike.Matching.Orders.{new_order}
use wirekrak.Flashstrike.Types.{ask, limit}
use wirekrak.Flashstrike.Pool.{Order}
use wirekrak.Flashstrike.Partition.{Partition}
use wirekrak.Flashstrike.Store.{Store}
use wirekrak.Flashstrike.Matching.{Manager}
use wirekrak.Flashstrike.IdMap.{Entry, OrderIdMap}
use wirekrak.Flashstrike.IdMap.Probing.{slot-lt}
use wirekrak.Flashstrike.IdMap.Invariant.{IsValid}

-- A map of one place, which is taken.
abbrev pub full_map : OrderIdMap
full_map = record { table = record { key = 5; val = some 0 } ∷ []; capacity = 1; used = 1 }

full_map-entry : (i : ℕ) → i < 1 → entry full_map.table i ≡ record { key = 5; val = some 0 }
unfolding entry
full_map-entry zero l = refl
full_map-entry (suc i) l = absurd (omega (arith, l))

pub full_map-IsValid : IsValid full_map
full_map-IsValid = record {
  sized = refl;
  positive = omega arith;
  reached = λ k i j id p l e f. omega (arith, p, l);
  unique = λ k i j id p q e f. omega (arith, p, q);
  filled = λ k j id l f.
      ap (λ (e : Entry). is_some e.val) (full_map-entry (slot 1 k j) (slot-lt 1 k j (omega arith)));
}

-- An order of five that rests alone at the price 1, in a partition of two prices.
abbrev pub resting_ask : Order
resting_ask = record (new_order 5 limit ask 1 5) {
  prev_idx = none;
  next_idx = none;
  next_free = none;
}

abbrev pub one_level : Partition
one_level = record {
  levels =
      record { price = 0; head_idx = none; tail_idx = none; total_qty = 0; active = false }
      ∷ record { price = 1; head_idx = some 0; tail_idx = some 0; total_qty = 5; active = true }
      ∷ [];
  bitmap = (false ∷ true ∷ []) ∷ [];
  best_price = some 1;
  has_best = true;
}

abbrev pub empty_side : Store
empty_side = record {
  num_partitions = 1;
  partition_bits = 1;
  active_partitions = none ∷ [];
  active_bitmap = (false ∷ []) ∷ [];
  best_price = none;
  has_best = false;
}

abbrev pub one_ask_engine : Manager
one_ask_engine = record {
  instrument = record {
    price_min_scaled = 1;
    price_max_scaled = 2;
    qty_min_scaled = 1;
    qty_max_scaled = 1000;
    min_notional = 1;
  };
  book = record {
    pool = record { orders = resting_ask ∷ []; free_head = none; used_count = 1 };
    ids = full_map;
    parts = record { partitions = one_level ∷ []; free_list = 0 ∷ []; free_count = 0 };
    bids = empty_side;
    asks = record empty_side {
      active_partitions = some 0 ∷ [];
      active_bitmap = (true ∷ []) ∷ [];
      best_price = some 1;
      has_best = true;
    };
  };
  trades_ring = [];
  seq_gen = reset 1;
}
