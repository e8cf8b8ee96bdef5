-- ===== src/Request/Scheduler.antt =====
-- include/wirekrak/core/protocol/request/scheduler.hpp, `Scheduler`, and the batching policies of
-- include/wirekrak/core/policy/protocol/batching.hpp. A slot of the ring holds the text of a
-- request, and a text is the list of its bytes.
use wirekrak.Common.{
  ℕ, ◌+◌, ◌%◌, ◌^◌, Bool, true, false, List, [], Option, none, some, ltb, if◌then◌else◌, length,
  get_or,
}
use wirekrak.Local.Ring.{
  Ring, new_ring, acquire_producer_slot, write_slot, commit_producer_slot, peek_consumer_slot,
  release_consumer_slot, is_empty,
}

abbrev pub Text : Type 0
Text = List ℕ

pub data BatchingMode : Type 0 where
  immediate batch paced : BatchingMode

pub record BatchingPolicy : Type 0 where
  pub mode : BatchingMode
  pub batch_size : ℕ
  pub emit_interval : ℕ

-- `TX_BATCH_QUEUE_CAPACITY` and `TX_BATCH_BUFFER_CAPACITY`.
abbrev pub queue_capacity : ℕ
queue_capacity = 256

abbrev pub max_payload : ℕ
max_payload = 1024

pub record Scheduler : Type 0 where
  pub poll_counter : ℕ
  pub queue : Ring Text

unfoldable pub new_scheduler : Scheduler
new_scheduler = record { poll_counter = 0; queue = new_ring queue_capacity [] }

unfoldable pub poll : Scheduler → Scheduler
poll s = record s { poll_counter = (s.poll_counter + 1) % 2 ^ 64 }

unfoldable pub idle : Scheduler → Bool
idle s = is_empty queue_capacity s.queue

unfoldable pub should_send : BatchingPolicy → Scheduler → Scheduler × Bool
should_send policy s = elim policy.mode [
  | paced ↦
      if ltb s.poll_counter policy.emit_interval
      then (s, false)
      else (record s { poll_counter = 0 }, true)
  | _ ↦ (s, false)
]

-- `enqueue`, of the text that the request writes into the slot; none where the text is longer than the
-- slot, since the writer overruns it before the source compares the size and discards the slot.
unfoldable pub enqueue : Text → Scheduler → Option (Scheduler × Bool)
enqueue text s = elim (acquire_producer_slot queue_capacity s.queue) [
  | none ↦ some (s, false)
  | some slot ↦
      if ltb max_payload (length text)
      then none
      else some (
        record s {
          queue = commit_producer_slot queue_capacity (write_slot queue_capacity slot text s.queue);
        },
        true,
      )
]

unfoldable pub peek : Scheduler → Option Text
peek s = elim (peek_consumer_slot queue_capacity s.queue) [
  | none ↦ none
  | some slot ↦ some (get_or s.queue.buffer slot [])
]

unfoldable pub release : Scheduler → Scheduler
release s = record s { queue = release_consumer_slot queue_capacity s.queue }
