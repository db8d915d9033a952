-- ===== src/Websocket/Server/Sessions.antt =====
-- A session that the listener has handed over, as its users drive it: by the calls of the base class
-- alone, since the close handler is the listener's.
use transit_session.Base.{
  ◌≤◌, ◌≡◌, refl, sym, subst, ap, ◌∙◌, true, List, [], ◌∷◌, arith, bit, if_cases, option_cases,
  length,
}
use transit_session.Errors.{ErrorCode, success, failed}
use transit_session.Core.{
  Call, set_read_handler, start_reading, stop_reading, close, send, own_call, close_session,
  run_call, run_calls, notify_read,
}
use transit_session.Core.Arrival.{Arrival}
use transit_session.Core.Preserve.{Preserves, schedule_operations-Preserves, run_calls-Preserves}
use transit_session.Core.Machine.{Machine, Keeps, Step, Step-Keeps}
use transit_session.Core.Invariant.{current_cases}
use transit_session.Websocket.{Bytes}
use transit_session.Websocket.ServerSession.{
  ServerCall, ServerState, WebSocketServerSession, do_read, do_write, close_transport,
  server_derived, run_server_call, read_completed, write_completed,
}
use transit_session.Websocket.ServerSession.Safety.{
  ServerInv, server_derived-Preserves, read_completed-ServerInv, write_completed-ServerInv,
}

-- A call of the base class is a call of the derived one.
abbrev lift_call : {W H X : Type 0} → Call W H ⊥ → Call W H X
lift_call (set_read_handler h) = set_read_handler h
lift_call start_reading = start_reading
lift_call stop_reading = stop_reading
lift_call close = close
lift_call (send w) = send w
lift_call (own_call x) = elim x [ ]

abbrev lift_calls : {W H X : Type 0} → List (Call W H ⊥) → List (Call W H X)
lift_calls [] = []
lift_calls (c ∷ cs) = lift_call c ∷ lift_calls cs

module _ {H : Type 0} where
  abbrev pub no_own : ⊥ → WebSocketServerSession H → WebSocketServerSession H
  no_own x s = s

  run_call-lift_call :
      (c : Call Bytes H ⊥) (s : WebSocketServerSession H)
      → run_call server_derived run_server_call (lift_call c) s ≡ run_call server_derived no_own c s
  unfolding run_call
  run_call-lift_call (set_read_handler h) s = refl
  run_call-lift_call start_reading s = refl
  run_call-lift_call stop_reading s = refl
  run_call-lift_call close s = refl
  run_call-lift_call (send w) s = refl
  run_call-lift_call (own_call x) s = elim x [ ]

  run_calls-lift_calls :
      (cs : List (Call Bytes H ⊥)) (s : WebSocketServerSession H)
      → run_calls server_derived run_server_call (lift_calls cs) s
        ≡ run_calls server_derived no_own cs s
  unfolding run_calls
  run_calls-lift_calls [] s = refl
  run_calls-lift_calls (c ∷ cs) s =
      ap (run_calls server_derived run_server_call (lift_calls cs)) (run_call-lift_call c s)
      ∙ run_calls-lift_calls cs (run_call server_derived no_own c s)

  module _ (react : H → ErrorCode → Bytes → List (Call Bytes H ⊥)) where
    abbrev lifted : H → ErrorCode → Bytes → List (Call Bytes H ServerCall)
    lifted h ec bytes = lift_calls (react h ec bytes)

    abbrev pub user_machine : Machine Bytes Bytes H ⊥ ServerState Arrival
    user_machine = record {
      derived = server_derived;
      run_own = no_own;
      read_completed = read_completed lifted;
      write_completed = write_completed;
      Arrives = λ a s. length a.bytes ≤ s.own.stream.read_message_max;
    }

    pub user_machine-ServerInv : Keeps user_machine ServerInv
    user_machine-ServerInv = record {
      base = server_derived-Preserves;
      own = λ x s v. v;
      read = λ a s v h _. read_completed-ServerInv lifted a s v h;
      write = λ ec s v h. write_completed-ServerInv ec s v h;
    }

    -- A property that the hooks keep, and that says nothing of the buffer, the queue and the flags of
    -- the two operations.
    module _ {P : WebSocketServerSession H → Type 0} (base : Preserves server_derived P)
        (any : (s t : WebSocketServerSession H)
          → t.closed ≡ s.closed
          → t.own.close_handler_set ≡ s.own.close_handler_set
          → t.own.close_calls ≡ s.own.close_calls
          → t.own.close_notified ≡ s.own.close_notified
          → P s
          → P t) where
      notify_read-Keeps :
          (ec : ErrorCode) (bytes : Bytes) (s : WebSocketServerSession H)
          → P s
          → P (notify_read server_derived run_server_call lifted ec bytes s)
      unfolding notify_read
      notify_read-Keeps ec bytes s p =
          option_cases P s.read_handler (λ _. p)
            (λ h _. subst P (sym (run_calls-lift_calls (react h ec bytes) _)) (
              run_calls-Preserves base (λ x t q. q) (react h ec bytes) _
                (any s _ refl refl refl refl p)))

      user_machine-Keeps : Keeps user_machine P
      unfolding read_completed write_completed
      user_machine-Keeps = record {
        base = base;
        own = λ x s p. p;
        read = λ a s p _ _.
            if_cases P (failed a.ec)
              (λ _. base.close _ (notify_read-Keeps a.ec [] _ (any s _ refl refl refl refl p)))
              (λ _.
                schedule_operations-Preserves base _
                  (notify_read-Keeps success _ _ (any s _ refl refl refl refl p)));
        write = λ ec s p _.
            if_cases P (failed ec) (λ _. base.close _ (any s _ refl refl refl refl p))
              (λ _. schedule_operations-Preserves base _ (any s _ refl refl refl refl p));
      }

  -- The close handler is set, and was called once if the session is closed, and else not at all.
  abbrev pub Reports : WebSocketServerSession H → Type 0
  Reports s =
      (s.own.close_handler_set ≡ true)
      × (s.own.close_calls ≡ bit s.closed)
      × (s.own.close_notified ≡ s.closed)

  server_derived-Reports : Preserves (server_derived {H = H}) Reports
  unfolding do_read do_write close_session close_transport
  server_derived-Reports = record {
    do_read = λ s p _. (p.0, p.1, p.2);
    do_write = λ s p _. current_cases Reports s.write_queue (λ _. p) (λ w q e. (p.0, p.1, p.2));
    close = λ s p. ground arith;
    accept = λ s w p _. (p.0, p.1, p.2);
    enable = λ s p _. (p.0, p.1, p.2);
    disable = λ s p. (p.0, p.1, p.2);
    handle = λ s h p. (p.0, p.1, p.2);
  }

  abbrev pub IsClosed : WebSocketServerSession H → Type 0
  IsClosed s = s.closed ≡ true

  server_derived-IsClosed : Preserves (server_derived {H = H}) IsClosed
  unfolding do_read do_write close_session close_transport
  server_derived-IsClosed = record {
    do_read = λ s p _. p;
    do_write = λ s p _. current_cases IsClosed s.write_queue (λ _. p) (λ w q e. p);
    close = λ s p. ground arith;
    accept = λ s w p _. p;
    enable = λ s p _. p;
    disable = λ s p. p;
    handle = λ s h p. p;
  }

  -- What a step of a session gives the listener.
  pub Step-Reports :
      (react : H → ErrorCode → Bytes → List (Call Bytes H ⊥)) {s t : WebSocketServerSession H}
      → Step (user_machine react) s t
      → ServerInv s
      → Reports s
      → ServerInv t × Reports t × (s.closed ≡ true → t.closed ≡ true)
  Step-Reports react st v p = (
    Step-Keeps (user_machine-ServerInv react) st v,
    Step-Keeps (user_machine-Keeps react server_derived-Reports (λ s t c h k n p. ground arith)) st
        p,
    Step-Keeps (user_machine-Keeps react server_derived-IsClosed (λ s t c _ _ _ p. c ∙ p)) st,
  )
