-- ===== src/Session.antt =====
-- include/wirekrak/core/protocol/session.hpp, `Session`: its parameters and its fields. The protocol
-- model is a record: what a request writes, and what the message handler does with a message. A
-- subscription type is its position in the model's list of types.
pub mod Requests
pub mod Signals
pub mod Polling
pub mod Invariant
pub mod Subscribing
pub mod Handling
pub mod Batching
pub mod Offline
pub mod Overload
pub mod Total
pub mod Draining
use wirekrak.Common.{ℕ, ◌≤◌, ◌≡◌, Bool, List, [], Option, some, length}
use wirekrak.Control.Sequence.{Sequence, protocol_base, reset}
use wirekrak.Control.Consecutive.{StateCounter}
use wirekrak.Replay.Table.{Symbols, Request, Table}
use wirekrak.Request.Scheduler.{BatchingPolicy, paced, max_payload, Scheduler, Text, new_scheduler}
use wirekrak.Subscription.Controller.{Controller}
use wirekrak.Transport.State.{WebSocket}
use wirekrak.Transport.Connection.{Connection}

pub data MessageResult : Type 0 where
  ignored invalid_json invalid_schema invalid_value parsed delivered backpressure : MessageResult

-- What the message handler reports to its context, with the type that it is about.
pub data Report (Symbol : Type 0) : Type 0 where
  subscribe_ack : ℕ → ℕ → Symbol → Bool → Report Symbol
  unsubscribe_ack : ℕ → ℕ → Symbol → Bool → Report Symbol
  rejection : ℕ → Symbol → Report Symbol

-- The protocol model. `Plane` is the data plane with the handler's own state; `ping` is none where
-- the protocol has no ping. `max_ping_size` is `max_json_size` of the ping.
pub record Protocol : Type 1 where
  pub symbols : Symbols
  pub Body : Type 0
  pub Plane : Type 0
  pub write_json : Request symbols.Symbol Body → Text
  pub max_json_size : Request symbols.Symbol Body → ℕ
  pub ping : Option Text
  pub max_ping_size : ℕ
  pub on_message : Text → Plane → Plane × List (Report symbols.Symbol) × MessageResult
  pub is_plane_empty : Plane → Bool

-- The policies of a session: `replay`, `batching`, `symbol_limit` (its `hard` holds where limits are
-- enabled and hard), `backpressure`, `liveness` and `progress`.
pub record Policies : Type 0 where
  pub replay : Bool
  pub batching : BatchingPolicy
  pub hard : Bool
  pub max_per_channel : ℕ
  pub max_global : ℕ
  pub zero_tolerance : Bool
  pub escalation_threshold : ℕ
  pub proactive : Bool
  pub progress : Bool
  pub progress_timeout : ℕ

-- The writers keep the sizes that they state: the text of a request is no longer than its
-- `max_json_size`, which the serialization of a request asserts, and with paced batching the text of
-- a batch fits into a slot of the scheduler.
pub record IsSized (m : Protocol) (policies : Policies) : Type 0 where
  pub requests :
      (req : Request m.symbols.Symbol m.Body) → length (m.write_json req) ≤ m.max_json_size req
  pub ping : (text : Text) → m.ping ≡ some text → length text ≤ m.max_ping_size
  pub batches :
      policies.batching.mode ≡ paced
      → (req : Request m.symbols.Symbol m.Body) → length req.symbols ≤ policies.batching.batch_size
      → length (m.write_json req) ≤ max_payload

-- `TX_BUFFER_CAPACITY` and `MAX_MESSAGES_PER_POLL`.
abbrev pub tx_capacity : ℕ
tx_capacity = 262144

abbrev pub max_messages_per_poll : ℕ
max_messages_per_poll = 128

pub record Session (m : Protocol) {Endpoint : Type 0} (w : WebSocket Endpoint Text) : Type 0 where
  pub req_id_seq : Sequence
  pub connection : Connection Endpoint Text w.Socket
  pub request_scheduler : Scheduler
  pub controller : Controller
  pub replay_db : List (Table m.symbols.Symbol m.Body)
  pub plane : m.Plane
  pub overload : StateCounter
