-- ===== src/Tests/Session.antt =====
-- Tests and witnesses of the session, over a protocol whose symbols are numbers and whose message
-- is a list of symbols, the first of which it acknowledges.
use wirekrak.Common.{
  ℕ, ◌≡◌, refl, true, false, List, [], ◌∷◌, ◌++◌, none, some, All, Returns, ◌==◌, arith, length,
  if◌then◌else◌,
}
use wirekrak.Replay.Table.{Symbols, Request, empty_table}
use wirekrak.Replay.Table.Invariant.{empty-IsValid}
use wirekrak.Request.Scheduler.{immediate, Text, new_scheduler}
use wirekrak.Subscription.Manager.{initial}
use wirekrak.Subscription.Manager.History.{initial-IsValid}
use wirekrak.Subscription.Controller
use wirekrak.Subscription.Controller.{total_owned_symbols}
use wirekrak.Transport.Policy.{
  Error, no_error, retryable_only, RetryPolicy, exponential, liveness_disabled,
}
use wirekrak.Transport.State.{WebSocket, ws_close, connected}
use wirekrak.Transport.Connection.{new_connection, close}
use wirekrak.Transport.Connection.Observers.{is_connected}
use wirekrak.Transport.Connection.Invariant.{is_settled}
use wirekrak.Session.{Protocol, Policies, IsSized, Report, subscribe_ack, delivered}
use wirekrak.Session.Requests.{Sess, subscribe}
use wirekrak.Session.Signals.{handle_disconnect}
use wirekrak.Session.Polling.{poll, drain_signals}
use wirekrak.Session.Draining.{drain_signals-signals}
use wirekrak.Transport.State.{signal_connected, signal_backpressure_detected}
use wirekrak.Session.Invariant.{IsValid}
use wirekrak.Session.Subscribing.{Keeps, subscribe-Keeps}
use wirekrak.Session.Offline.{Registered, subscribe-is_connected}
use wirekrak.Session.Overload.{overloaded, overloaded-close, handle_disconnect-is_quiescent}
use wirekrak.Session.Total.{poll-Returns}
use wirekrak.Session.Handling.{IsTyped}

abbrev numbers : Symbols
numbers = record { Symbol = ℕ; equal = ◌==◌; intern = λ symbol. symbol; equal-intern = λ a b. refl }

abbrev acknowledge : Text → List (Report ℕ)
acknowledge [] = []
acknowledge (symbol ∷ text) = subscribe_ack 0 10 symbol true ∷ []

abbrev model : Protocol
model = record {
  symbols = numbers;
  Body = ℕ;
  Plane = ℕ;
  write_json = λ req. req.symbols;
  max_json_size = λ req. length req.symbols;
  ping = none;
  max_ping_size = 0;
  on_message = λ text plane. (plane, acknowledge text, delivered);
  is_plane_empty = λ plane. plane == 0;
}

abbrev test_ws : WebSocket ℕ Text
test_ws = record {
  Socket = Error;
  connect = λ endpoint socket ring. (socket, ring, socket);
  send = λ message socket ring. (socket, ring, true);
  close = λ socket ring. (socket, ring ++ ws_close ∷ []);
}

abbrev policies : Policies
policies = record {
  replay = true;
  batching = record { mode = immediate; batch_size = 0; emit_interval = 0 };
  hard = false;
  max_per_channel = 0;
  max_global = 0;
  zero_tolerance = false;
  escalation_threshold = 3;
  proactive = false;
  progress = false;
  progress_timeout = 0;
}

model-IsSized : IsSized model policies
model-IsSized = record {
  requests = λ req. omega arith;
  ping = λ text e. absurd (ground (arith, e));
  batches = λ e. absurd (ground (arith, e));
}

abbrev retry : RetryPolicy
retry = exponential retryable_only 6 0

abbrev TestSession : Type 0
TestSession = Sess model test_ws retry liveness_disabled policies

-- A session with one subscription type that is not connected.
abbrev down : TestSession
down = record {
  req_id_seq = record { next_seq = 10 };
  connection = new_connection 0;
  request_scheduler = new_scheduler;
  controller = record { managers = initial ∷ []; last_progress_ns = 0 };
  replay_db = empty_table ∷ [];
  plane = 0;
  overload = record { active = false; consecutive = 0 };
}

-- One that is, with a message to read.
abbrev up : TestSession
up = record down {
  connection = record (new_connection 0) {
    parsed_url = some 7;
    message_ring = (5 ∷ []) ∷ [];
    ws = some no_error;
    epoch = 1;
    state = connected;
  };
}

abbrev overloaded_session : TestSession
overloaded_session = record up { overload = record { active = true; consecutive = 0 } }

down-is_connected : is_connected test_ws down.connection ≡ false
unfolding is_connected new_connection
down-is_connected = refl

abbrev request : Request ℕ ℕ
request = record { req_id = none; symbols = 5 ∷ 6 ∷ []; body = 0 }

down-IsValid : IsValid model test_ws retry liveness_disabled policies 1 down
unfolding is_settled new_connection
down-IsValid = record {
  managers = ((initial-IsValid, tt), refl);
  tables = ((empty-IsValid numbers, tt), refl);
  connection = refl;
}

up-IsValid : IsValid model test_ws retry liveness_disabled policies 1 up
unfolding is_settled new_connection
up-IsValid = record {
  managers = ((initial-IsValid, tt), refl);
  tables = ((empty-IsValid numbers, tt), refl);
  connection = refl;
}

-- Every message that the model's handler reports on is about the one type.
typed :
    (text : Text) (plane : ℕ)
    → All (IsTyped model test_ws retry liveness_disabled policies 1 0) (acknowledge text)
typed [] plane = tt
typed (symbol ∷ text) plane = (omega arith, tt)

poll-Returns_example :
    Returns
      (IsValid model test_ws retry liveness_disabled policies 1)
      (poll model test_ws retry liveness_disabled policies 0 3 no_error up)
poll-Returns_example =
    poll-Returns model test_ws retry liveness_disabled policies 1 0 typed model-IsSized 3 no_error
      up up-IsValid

subscribe-Keeps_example :
    Keeps model test_ws retry liveness_disabled policies 1 0
      (subscribe model test_ws retry liveness_disabled policies 0 0 request up)
subscribe-Keeps_example =
    subscribe-Keeps model test_ws retry liveness_disabled policies 1 0 model-IsSized 0 (omega arith)
      request up up-IsValid

abbrev five : List ℕ
five = 1 ∷ 2 ∷ 3 ∷ 4 ∷ 5 ∷ []

subscribe-is_connected_example :
    Returns
      (Registered model test_ws retry liveness_disabled policies 0 model-IsSized refl 0 request
        down)
      (subscribe model test_ws retry liveness_disabled policies 0 0 request down)
subscribe-is_connected_example =
    subscribe-is_connected model test_ws retry liveness_disabled policies 0 model-IsSized refl 0
      request down 1 (omega arith) down-IsValid refl down-is_connected

overloaded-close_example :
    ((overloaded model test_ws retry liveness_disabled policies 0 2 overloaded_session).connection
      ≡ overloaded_session.connection)
    × ((overloaded model test_ws retry liveness_disabled policies 0 3 overloaded_session).connection
        ≡ (if 3 == policies.escalation_threshold
            then close test_ws overloaded_session.connection
            else overloaded_session.connection))
overloaded-close_example =
    overloaded-close model test_ws retry liveness_disabled policies 0 2 overloaded_session refl refl
      refl (omega arith) (omega arith)

handle_disconnect-is_quiescent_example :
    let s = handle_disconnect model test_ws retry liveness_disabled policies 0 overloaded_session in
    (Controller.is_quiescent s.controller ≡ true)
    × (total_owned_symbols s.controller ≡ 0)
    × (s.overload.active ≡ false)
    × (s.replay_db ≡ overloaded_session.replay_db)
handle_disconnect-is_quiescent_example =
    handle_disconnect-is_quiescent model test_ws retry liveness_disabled policies 0
      overloaded_session

-- One with signals to take.
abbrev signalled : TestSession
signalled = record up {
  connection = record up.connection {
    signals = signal_backpressure_detected ∷ signal_connected ∷ [];
  };
}

signalled-IsValid : IsValid model test_ws retry liveness_disabled policies 1 signalled
unfolding is_settled new_connection
signalled-IsValid = record {
  managers = ((initial-IsValid, tt), refl);
  tables = ((empty-IsValid numbers, tt), refl);
  connection = refl;
}

drain_signals-signals_example :
    Returns
      (λ t.
        IsValid model test_ws retry liveness_disabled policies 1 t × (t.connection.signals ≡ []))
      (drain_signals model test_ws retry liveness_disabled policies 0 2 signalled)
drain_signals-signals_example =
    drain_signals-signals model test_ws retry liveness_disabled policies 0 model-IsSized 1 signalled
      signalled-IsValid
