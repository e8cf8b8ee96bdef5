-- ===== src/Session/Total.antt =====
-- Polling a session returns, and keeps it valid.
use wirekrak.Common.{
  leb, ℕ, zero, suc, ◌≡◌, Bool, true, false, not, ◌&&◌, Option, none, some, length, All, arith,
  Returns, Returns-bind, inl, inr, Option-cases,
}
use wirekrak.Request.Scheduler.{BatchingMode, immediate, batch, paced, Text, Scheduler, enqueue}
use wirekrak.Transport.Policy.{RetryPolicy, LivenessPolicy}
use wirekrak.Transport.State.{WebSocket}
use wirekrak.Transport.Connection.{Conn}
use wirekrak.Transport.Connection.Operations.{send}
use wirekrak.Transport.Connection.Invariant.{is_settled}
use wirekrak.Session.{Protocol, Policies, IsSized}
use wirekrak.Session.Requests.{Sess}
use wirekrak.Session.Invariant.{IsValid, chosen}
use wirekrak.Control.Consecutive
use wirekrak.Request.Scheduler
use wirekrak.Request.Scheduler.{peek, release, should_send, idle}
use wirekrak.Transport.Connection.{close}
use wirekrak.Transport.Connection.Operations
use wirekrak.Transport.Connection.Operations.{poll_signal, peek_message, release_message}
use wirekrak.Transport.Connection.Invariant.{close-settled}
use wirekrak.Transport.Connection.Attempts.{returns_settled}
use wirekrak.Transport.Connection.Polling.{
  poll-settled, poll_signal-settled, peek_message-settled, release_message-settled,
}
use wirekrak.Session.{max_messages_per_poll}
use wirekrak.Session.Invariant.{reschedule, send_text-IsValid}
use wirekrak.Session.Signals.{handle_signal, on_reports}
use wirekrak.Session.Polling.{
  handle_message, send_next, send_due, drain_signals, process_messages, send_paced,
  enforce_backpressure_policy, poll,
}
use wirekrak.Session.Handling.{
  replane, reload, reconnect, handle_signal-Returns, on_reports-Returns, IsTyped,
}

module _ (m : Protocol) {Endpoint : Type 0} (w : WebSocket Endpoint Text) (p : RetryPolicy)
    (live : LivenessPolicy) (policies : Policies) (n now : ℕ) where
  -- A session of these parameters, and the invariant on it.
  abbrev S : Type 0
  S = Sess m w p live policies

  abbrev Valid : S → Type 0
  Valid s = IsValid m w p live policies n s

  pub drain_signals-Returns :
      (sized : IsSized m policies) (fuel : ℕ) (s : S)
      → Valid s
      → Returns Valid (drain_signals m w p live policies now fuel s)
  unfolding drain_signals
  drain_signals-Returns sized zero s v = v
  drain_signals-Returns sized (suc fuel) s v =
      let (connection, signal) = poll_signal w p live s.connection in
      let v' =
        reconnect m w p live policies n now connection s v
          (poll_signal-settled w p live s.connection v.connection) in
      elim (Option-cases signal) [
        | inl e ↦ rw (drain_signals, e) v
        | inr (sig, e) ↦
            rw (drain_signals, e)
              (Returns-bind Valid Valid
                (handle_signal m w p live policies now sig (record s { connection = connection })) _
                (handle_signal-Returns m w p live policies n now sized sig
                  (record s { connection = connection }) v')
                (λ t u. drain_signals-Returns sized fuel t u))
      ]

  send_next-IsValid :
      (scheduler : Scheduler) (s : S)
      → Valid s
      → Valid (send_next m w p live policies now scheduler s)
  unfolding send_next
  send_next-IsValid scheduler s v = elim (Option-cases (peek scheduler)) [
    | inl e ↦ rw (send_next, e) (reschedule m w p live policies n now scheduler s v)
    | inr (text, e) ↦
        rw (send_next, e)
          (reschedule m w p live policies n now (release scheduler) _
            (send_text-IsValid m w p live policies n now text s v))
  ]

  send_due-IsValid : (s : S) → Valid s → Valid (send_due m w p live policies now s)
  unfolding send_due
  send_due-IsValid s v =
      let polled = Scheduler.poll s.request_scheduler in
      let (scheduler, due) = should_send policies.batching polled in
      let queued = λ (t : Scheduler). reschedule m w p live policies n now t s v in
      chosen m w p live policies n now (idle polled) _ _ (queued polled) (
        chosen m w p live policies n now (not due) _ _ (queued scheduler)
          (send_next-IsValid scheduler s v))

  send_paced-IsValid : (s : S) → Valid s → Valid (send_paced m w p live policies now s)
  unfolding send_paced
  send_paced-IsValid s v = by_mode policies.batching.mode
    where
      by_mode :
          (mode : BatchingMode)
          → Valid (elim mode as (λ _. S) [ paced ↦ send_due m w p live policies now s | _ ↦ s ])
      by_mode paced = send_due-IsValid s v
      by_mode immediate = v
      by_mode batch = v

  enforce_backpressure_policy-IsValid :
      (s : S) → Valid s → Valid (enforce_backpressure_policy m w p live policies now s)
  unfolding enforce_backpressure_policy
  enforce_backpressure_policy-IsValid s v =
      let overload = Consecutive.next_frame s.overload in
      chosen m w p live policies n now
        (overload.active
          && not policies.zero_tolerance
          && leb policies.escalation_threshold overload.consecutive)
        _ _
        (reload m w p live policies n now _ _ (
          reconnect m w p live policies n now (close w s.connection) s v
            (close-settled w p live s.connection v.connection)))
        (reload m w p live policies n now overload s v)

  module _
      (typed : (text : Text) (plane : m.Plane)
        → All (IsTyped m w p live policies n now) (m.on_message text plane).1) where
    handle_message-Returns :
        (text : Text) (s : S)
        → Valid s
        → Returns (λ r. Valid r.0) (handle_message m w p live policies now text s)
    unfolding handle_message
    handle_message-Returns text s v =
        let (plane, reports, result) = m.on_message text s.plane in
        Returns-bind Valid (λ r. Valid r.0)
          (on_reports m w p live policies now reports (record s { plane = plane })) _
          (on_reports-Returns m w p live policies n now reports (record s { plane = plane })
            (typed text s.plane) (replane m w p live policies n now plane s v))
          (λ t u.
            reconnect m w p live policies n now (release_message w p live t.connection) t u
              (release_message-settled w p live t.connection u.connection))

    stopped :
        (stop : Bool) (t : S) (rest : S → Option S)
        → Valid t
        → ((u : S) → Valid u → Returns Valid (rest u))
        → Returns Valid (elim stop as (λ _. Option S) [ true ↦ some t | false ↦ rest t ])
    stopped true t rest v f = v
    stopped false t rest v f = f t v

    process_messages-Returns :
        (count : ℕ) (s : S)
        → Valid s
        → Returns Valid (process_messages m w p live policies now count s)
    unfolding process_messages
    process_messages-Returns zero s v = v
    process_messages-Returns (suc count) s v =
        let (connection, message) = peek_message w p live now s.connection in
        let v' =
          reconnect m w p live policies n now connection s v
            (peek_message-settled w p live now s.connection v.connection) in
        elim (Option-cases message) [
          | inl e ↦ rw (process_messages, e) v
          | inr (text, e) ↦
              rw (process_messages, e)
                (Returns-bind (λ r. Valid r.0) Valid
                  (handle_message m w p live policies now text
                    (record s { connection = connection }))
                  _ (handle_message-Returns text (record s { connection = connection }) v')
                  (λ r u.
                    stopped r.1 r.0 (process_messages m w p live policies now count) u
                      (λ t. process_messages-Returns count t)))
        ]

    polled :
        (o : Option (Conn w))
        → returns_settled w p live o ≡ true
        → Returns (λ c. is_settled w p live c ≡ true) o
    unfolding returns_settled
    polled none e = absurd (ground arith)
    polled (some c) e = e

    -- Polling a valid session, whose message handler reports on types that the session has, and where
    -- the writers keep the sizes that they state, meets no unreachable line, no failing assertion
    -- and no overrun of a slot: it returns, and leaves the session valid.
    pub poll-Returns :
        (sized : IsSized m policies) (fuel : ℕ) (fresh : w.Socket) (s : S)
        → Valid s
        → Returns Valid (poll m w p live policies now fuel fresh s)
    unfolding poll
    poll-Returns sized fuel fresh s v =
        Returns-bind (λ c. is_settled w p live c ≡ true) Valid
          (Operations.poll w p live now fuel fresh s.connection) _
          (polled _ (poll-settled w p live now fuel fresh s.connection v.connection))
          (λ c e.
            let t = record s { connection = c } in
            Returns-bind Valid Valid (drain_signals m w p live policies now (length c.signals) t) _
              (drain_signals-Returns sized (length c.signals) t
                (reconnect m w p live policies n now c s v e))
              (λ t1 u1.
                Returns-bind Valid Valid
                  (process_messages m w p live policies now max_messages_per_poll t1) _
                  (process_messages-Returns max_messages_per_poll t1 u1)
                  (λ t2 u2. enforce_backpressure_policy-IsValid _ (send_paced-IsValid t2 u2))))
