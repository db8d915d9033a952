-- ===== src/Websocket/Agreement.antt =====
-- The two WebSocket sessions are written twice; without a close handler they do the same.
use transit_session.Base.{
  ◌≡◌, refl, ap, ◌∙◌, true, false, Option, none, some, List, [], ◌∷◌, if_both, if_cases,
}
use transit_session.Errors.{ErrorCode, success, failed}
use transit_session.Core.{
  Call, set_read_handler, start_reading, stop_reading, close, send, own_call, close_session,
  try_write, try_read, schedule_operations, enqueue_write, run_call, run_calls, notify_read,
}
use transit_session.Core.Arrival.{Arrival}
use transit_session.Websocket.{Bytes, WebSocketServerConfig}
use transit_session.Websocket.Client
use transit_session.Websocket.Client.{WebSocketSession, client_derived, no_own}
use transit_session.Websocket.ServerSession
use transit_session.Websocket.ServerSession.{
  ServerCall, WebSocketServerSession, server_derived, run_server_call,
}

-- The same of two cases on one option, and on the front of one queue.
option_both {ℓ κ} :
    {W A B : Type ℓ} (P : A → B → Type κ) (o : Option W) (x : A) (f : W → A) (y : B) (g : W → B)
    → P x y
    → ((w : W) → P (f w) (g w))
    → P (elim o [ none ↦ x | some w ↦ f w ]) (elim o [ none ↦ y | some w ↦ g w ])
option_both P none x f y g h k = h
option_both P (some w) x f y g h k = k w

module _ {H : Type 0} (bound : WebSocketServerConfig) where
  -- The client as a server session without a close handler, listening where `bound` says.
  abbrev pub as_server : WebSocketSession H → WebSocketServerSession H
  as_server s = record {
    read_handler = s.read_handler;
    write_queue = s.write_queue;
    read_enabled = s.read_enabled;
    read_in_progress = s.read_in_progress;
    write_in_progress = s.write_in_progress;
    closed = s.closed;
    own = record {
      stream = s.own.stream;
      config = record bound {
        binary_mode = s.own.config.binary_mode;
        tcp_no_delay = s.own.config.tcp_no_delay;
        max_message_size = s.own.config.max_message_size;
      };
      read_buffer = s.own.read_buffer;
      close_handler_set = false;
      close_notified = s.closed;
      close_calls = 0;
    };
    trace = s.trace;
  }

  abbrev Agrees : WebSocketServerSession H → WebSocketSession H → Type 0
  Agrees t s = t ≡ as_server s

  do_read-Agrees :
      (s : WebSocketSession H) → Agrees (ServerSession.do_read (as_server s)) (Client.do_read s)
  unfolding Client.do_read ServerSession.do_read
  do_read-Agrees s = refl

  do_write-Agrees :
      (s : WebSocketSession H) → Agrees (ServerSession.do_write (as_server s)) (Client.do_write s)
  unfolding Client.do_write ServerSession.do_write
  do_write-Agrees s =
      option_both Agrees (elim s.write_queue [ [] ↦ none | w ∷ _ ↦ some w ]) _ _ _ _ refl
        (λ w. refl)

  schedule_operations-Agrees :
      (s : WebSocketSession H)
      → Agrees
          (schedule_operations server_derived (as_server s))
          (schedule_operations client_derived s)
  unfolding schedule_operations try_write try_read Client.can_start_write Client.can_start_read
      ServerSession.can_start_write ServerSession.can_start_read
  schedule_operations-Agrees s =
      let first : Agrees (try_write server_derived (as_server s)) (try_write client_derived s) =
        if_both Agrees (Client.can_start_write s) (λ _. do_write-Agrees s) (λ _. refl) in
      let t = try_write client_derived s in
      ap (try_read server_derived) first
      ∙ if_both Agrees (Client.can_start_read t) (λ _. do_read-Agrees t) (λ _. refl)

  close_session-Agrees :
      (s : WebSocketSession H)
      → Agrees
          (close_session ServerSession.close_transport (as_server s))
          (close_session Client.close_transport s)
  unfolding close_session Client.close_transport ServerSession.close_transport
  close_session-Agrees s =
      let shut : WebSocketSession H =
        Client.close_transport
          (record s { read_enabled = false; write_queue = []; closed = true }) in
      if_both Agrees s.closed (λ _. refl)
        (λ e. if_cases (λ t. Agrees t shut) s.closed (λ f. absurd (cc)) (λ _. refl))

  enqueue_write-Agrees :
      (w : Bytes) (s : WebSocketSession H)
      → Agrees (enqueue_write server_derived w (as_server s)) (enqueue_write client_derived w s)
  unfolding enqueue_write
  enqueue_write-Agrees w s = if_both Agrees s.closed (λ _. refl) (λ _. schedule_operations-Agrees _)

  -- A call of the client is a call of the server session.
  abbrev pub lift_call : Call Bytes H ⊥ → Call Bytes H ServerCall
  lift_call (set_read_handler h) = set_read_handler h
  lift_call start_reading = start_reading
  lift_call stop_reading = stop_reading
  lift_call close = close
  lift_call (send w) = send w
  lift_call (own_call x) = elim x [ ]

  abbrev pub lift_calls : List (Call Bytes H ⊥) → List (Call Bytes H ServerCall)
  lift_calls [] = []
  lift_calls (c ∷ cs) = lift_call c ∷ lift_calls cs

  run_call-Agrees :
      (c : Call Bytes H ⊥) (s : WebSocketSession H)
      → Agrees
          (run_call server_derived run_server_call (lift_call c) (as_server s))
          (run_call client_derived no_own c s)
  unfolding run_call
  run_call-Agrees (set_read_handler h) s = refl
  run_call-Agrees start_reading s =
      if_both Agrees s.closed (λ _. refl) (λ _. schedule_operations-Agrees _)
  run_call-Agrees stop_reading s = refl
  run_call-Agrees close s = close_session-Agrees s
  run_call-Agrees (send w) s = enqueue_write-Agrees w s
  run_call-Agrees (own_call x) s = elim x [ ]

  run_calls-Agrees :
      (cs : List (Call Bytes H ⊥)) (s : WebSocketSession H)
      → Agrees
          (run_calls server_derived run_server_call (lift_calls cs) (as_server s))
          (run_calls client_derived no_own cs s)
  unfolding run_calls
  run_calls-Agrees [] s = refl
  run_calls-Agrees (c ∷ cs) s =
      ap (run_calls server_derived run_server_call (lift_calls cs)) (run_call-Agrees c s)
      ∙ run_calls-Agrees cs (run_call client_derived no_own c s)

  write_completed-Agrees :
      (ec : ErrorCode) (s : WebSocketSession H)
      → Agrees (ServerSession.write_completed ec (as_server s)) (Client.write_completed ec s)
  unfolding Client.write_completed ServerSession.write_completed
  write_completed-Agrees ec s =
      if_both Agrees (failed ec) (λ _. close_session-Agrees _) (λ _. schedule_operations-Agrees _)

  module _ (react : H → ErrorCode → Bytes → List (Call Bytes H ⊥)) where
    -- The handlers do the same on both sides.
    abbrev pub lift_react : H → ErrorCode → Bytes → List (Call Bytes H ServerCall)
    lift_react h ec bytes = lift_calls (react h ec bytes)

    notify_read-Agrees :
        (ec : ErrorCode) (bytes : Bytes) (s : WebSocketSession H)
        → Agrees
            (notify_read server_derived run_server_call lift_react ec bytes (as_server s))
            (notify_read client_derived no_own react ec bytes s)
    unfolding notify_read
    notify_read-Agrees ec bytes s =
        option_both Agrees s.read_handler _ _ _ _ refl (λ h. run_calls-Agrees (react h ec bytes) _)

    read_completed-Agrees :
        (a : Arrival) (s : WebSocketSession H)
        → Agrees
            (ServerSession.read_completed lift_react a (as_server s))
            (Client.read_completed react a s)
    unfolding Client.read_completed ServerSession.read_completed
    read_completed-Agrees a s =
        if_both Agrees (failed a.ec)
          (λ _.
            ap (close_session ServerSession.close_transport) (notify_read-Agrees a.ec [] _)
            ∙ close_session-Agrees _)
          (λ _.
            ap (schedule_operations server_derived) (notify_read-Agrees success _ _)
            ∙ schedule_operations-Agrees _)

    -- What may happen to a session.
    pub data SessionStep : Type 0 where
      calls : Call Bytes H ⊥ → SessionStep
      reads : Arrival → SessionStep
      writes : ErrorCode → SessionStep

    abbrev pub run_client : List SessionStep → WebSocketSession H → WebSocketSession H
    run_client [] s = s
    run_client (calls c ∷ es) s = run_client es (run_call client_derived no_own c s)
    run_client (reads a ∷ es) s = run_client es (Client.read_completed react a s)
    run_client (writes ec ∷ es) s = run_client es (Client.write_completed ec s)

    abbrev pub run_server : List SessionStep → WebSocketServerSession H → WebSocketServerSession H
    run_server [] t = t
    run_server (calls c ∷ es) t =
        run_server es (run_call server_derived run_server_call (lift_call c) t)
    run_server (reads a ∷ es) t = run_server es (ServerSession.read_completed lift_react a t)
    run_server (writes ec ∷ es) t = run_server es (ServerSession.write_completed ec t)

    -- After any calls, completions of reads and completions of writes, in any order, and with any
    -- handlers, a server session without a close handler is the client session as a server session:
    -- the same queue, flags, stream and read buffer, the same calls of the read handler and the
    -- same operations in the same order; it has called its close code exactly when the client is
    -- closed.
    pub run_server-run_client :
        (es : List SessionStep) (s : WebSocketSession H)
        → run_server es (as_server s) ≡ as_server (run_client es s)
    run_server-run_client [] s = refl
    run_server-run_client (calls c ∷ es) s =
        ap (run_server es) (run_call-Agrees c s) ∙ run_server-run_client es _
    run_server-run_client (reads a ∷ es) s =
        ap (run_server es) (read_completed-Agrees a s) ∙ run_server-run_client es _
    run_server-run_client (writes ec ∷ es) s =
        ap (run_server es) (write_completed-Agrees ec s) ∙ run_server-run_client es _
