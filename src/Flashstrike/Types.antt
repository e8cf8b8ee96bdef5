-- ===== src/Flashstrike/Types.antt =====
-- integrations/include/flashstrike/types.hpp: the enumerations of an order and of
-- the outcome of an operation.

pub data Side : Type 0 where
  bid ask : Side

pub data OrderType : Type 0 where
  limit market : OrderType

pub data TimeInForce : Type 0 where
  gtc ioc fok : TimeInForce

pub data OperationStatus : Type 0 where
  success full_fill partial_fill no_match not_found unchanged invalid_order book_full bad_alloc
        idmap_full rejected :
      OperationStatus
