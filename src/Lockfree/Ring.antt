-- ===== src/Lockfree/Ring.antt =====
-- include/lcr/lockfree/spsc_ring.hpp: the ring of slots that are acquired and committed in two calls, on
-- the core of Lockfree.Spsc. The flags are those of a debug build; a result of none is a failing
-- assertion. A pointer to a slot is its index.
pub mod Slots
use wirekrak.Common.{
  ℕ, ◌+◌, ◌%◌, Bool, true, false, List, Option, none, some, if◌then◌else◌, set, get_or, ◌>>=◌,
}
use wirekrak.Lockfree.Spsc.{
  Core, new_core, is_full, is_empty, has_free_slots, has_available, publish_head, publish_tail,
  advance_head, advance_tail,
}
use wirekrak.Lockfree.Spsc

pub record SpscRing (T : Type 0) : Type 0 where
  pub core : Core T
  pub producer_slot_acquired : Bool
  pub consumer_slot_acquired : Bool

-- `producer_slot` and `consumer_slot`.
unfoldable pub batch_slot : ℕ → ℕ → ℕ → ℕ
batch_slot capacity first offset = (first + offset) % capacity

module _ {T : Type 0} (capacity : ℕ) where
  -- A slot is handed out, none where `refused`, and the producer, or the consumer, holds it.
  unfoldable pub hand_to_producer : Bool → ℕ → SpscRing T → Option (SpscRing T × Option ℕ)
  hand_to_producer refused slot r =
      if refused
      then some (r, none)
      else if r.producer_slot_acquired
      then none
      else some (record r { producer_slot_acquired = true }, some slot)

  unfoldable pub hand_to_consumer : Bool → ℕ → SpscRing T → Option (SpscRing T × Option ℕ)
  hand_to_consumer refused slot r =
      if refused
      then some (r, none)
      else if r.consumer_slot_acquired
      then none
      else some (record r { consumer_slot_acquired = true }, some slot)

  unfoldable pub acquire_producer_slot : SpscRing T → Option (SpscRing T × Option ℕ)
  unfolding is_full hand_to_producer
  acquire_producer_slot r =
      let (c, refused) = is_full capacity r.core in
      hand_to_producer refused r.core.head (record r { core = c })

  -- The write through the pointer to a slot, and the read.
  unfoldable pub write_slot : ℕ → T → SpscRing T → SpscRing T
  write_slot slot item r = record r {
    core = record r.core { buffer = set r.core.buffer slot item };
  }

  unfoldable pub read_slot : ℕ → T → SpscRing T → T
  read_slot slot blank r = get_or r.core.buffer slot blank

  unfoldable pub commit_producer_slot : SpscRing T → Option (SpscRing T)
  unfolding publish_head
  commit_producer_slot r =
      if r.producer_slot_acquired
      then some (record r { core = publish_head capacity r.core; producer_slot_acquired = false })
      else none

  unfoldable pub discard_producer_slot : SpscRing T → Option (SpscRing T)
  discard_producer_slot r =
      if r.producer_slot_acquired then some (record r { producer_slot_acquired = false }) else none

  unfoldable pub peek_consumer_slot : SpscRing T → Option (SpscRing T × Option ℕ)
  unfolding is_empty hand_to_consumer
  peek_consumer_slot r =
      let (c, refused) = is_empty capacity r.core in
      hand_to_consumer refused r.core.tail (record r { core = c })

  unfoldable pub release_consumer_slot : SpscRing T → Option (SpscRing T)
  unfolding publish_tail
  release_consumer_slot r =
      if r.consumer_slot_acquired
      then some (record r { core = publish_tail capacity r.core; consumer_slot_acquired = false })
      else none

  unfoldable pub try_acquire_producer_batch : ℕ → SpscRing T → Option (SpscRing T × Option ℕ)
  unfolding has_free_slots hand_to_producer
  try_acquire_producer_batch n r =
      let (c, ok) = has_free_slots capacity n r.core in
      hand_to_producer (if ok then false else true) r.core.head (record r { core = c })

  unfoldable pub commit_producer_batch : ℕ → SpscRing T → Option (SpscRing T)
  unfolding advance_head
  commit_producer_batch n r =
      if r.producer_slot_acquired
      then some (record r { core = advance_head capacity n r.core; producer_slot_acquired = false })
      else none

  unfoldable pub try_acquire_consumer_batch : ℕ → SpscRing T → Option (SpscRing T × Option ℕ)
  unfolding has_available hand_to_consumer
  try_acquire_consumer_batch n r =
      let (c, ok) = has_available capacity n r.core in
      hand_to_consumer (if ok then false else true) r.core.tail (record r { core = c })

  unfoldable pub release_consumer_batch : ℕ → SpscRing T → Option (SpscRing T)
  unfolding advance_tail
  release_consumer_batch n r =
      if r.consumer_slot_acquired
      then some (record r { core = advance_tail capacity n r.core; consumer_slot_acquired = false })
      else none

  unfoldable pub clear : SpscRing T → SpscRing T
  unfolding Spsc.clear
  clear r = record {
    core = Spsc.clear capacity r.core;
    producer_slot_acquired = false;
    consumer_slot_acquired = false;
  }
