-- ===== src/Websocket/Growth.antt =====
-- The writes of the two WebSocket sessions only ever grow.
use transit_session.Base.{List, [], if_cases}
use transit_session.Errors.{ErrorCode, success, failed}
use transit_session.Core.{Call, close_session}
use transit_session.Core.Preserve.{schedule_operations-Preserves, notify_read-Preserves}
use transit_session.Core.Machine.{Keeps}
use transit_session.Core.Invariant.{current_cases}
use transit_session.Core.Growth.{Extends-snoc, HasWritten, IsGrowing}
use transit_session.Websocket.{Bytes}
use transit_session.Websocket.Client
use transit_session.Websocket.Client.{WebSocketSession, client_derived, client_machine, no_own}
use transit_session.Websocket.ServerSession
use transit_session.Websocket.ServerSession.{
  ServerCall, set_close_handler, WebSocketServerSession, server_derived, run_server_call,
  server_machine,
}

module _ {H : Type 0} where
  client_derived-IsGrowing : IsGrowing (client_derived {H = H})
  unfolding Client.do_read Client.do_write Client.close_transport close_session
  client_derived-IsGrowing ws = record {
    do_read = λ s p _. p;
    do_write = λ s p _.
        current_cases (HasWritten ws) s.write_queue (λ _. p) (λ w q e. Extends-snoc ws _ w p);
    close = λ s p. if_cases (HasWritten ws) s.closed (λ _. p) (λ _. p);
    accept = λ s w p _. p;
    enable = λ s p _. p;
    disable = λ s p. p;
    handle = λ s h p. p;
  }

  server_derived-IsGrowing : IsGrowing (server_derived {H = H})
  unfolding ServerSession.do_read ServerSession.do_write ServerSession.close_transport close_session
  server_derived-IsGrowing ws = record {
    do_read = λ s p _. p;
    do_write = λ s p _.
        current_cases (HasWritten ws) s.write_queue (λ _. p) (λ w q e. Extends-snoc ws _ w p);
    close = λ s p.
        if_cases (HasWritten ws) s.closed (λ _. p)
          (λ _. if_cases (HasWritten ws) s.own.close_notified (λ _. p) (λ _. p));
    accept = λ s w p _. p;
    enable = λ s p _. p;
    disable = λ s p. p;
    handle = λ s h p. p;
  }

  module _ (react : H → ErrorCode → Bytes → List (Call Bytes H ⊥)) (ws : List Bytes) where
    pub client_machine-grows : Keeps (client_machine react) (HasWritten ws)
    unfolding Client.read_completed Client.write_completed
    client_machine-grows =
        let grows = client_derived-IsGrowing ws in
        record {
          base = grows;
          own = λ x s p. p;
          read = λ a s p _ _.
              if_cases (HasWritten ws) (failed a.ec)
                (λ _. grows.close _ (notify_read-Preserves grows (λ x s p. p) react a.ec [] _ p p))
                (λ _.
                  schedule_operations-Preserves grows _
                    (notify_read-Preserves grows (λ x s p. p) react success _ _ p p));
          write = λ ec s p _.
              if_cases (HasWritten ws) (failed ec) (λ _. grows.close _ p)
                (λ _. schedule_operations-Preserves grows _ p);
        }

  module _ (react : H → ErrorCode → Bytes → List (Call Bytes H ServerCall)) (ws : List Bytes) where
    run_server_call-grows :
        (x : ServerCall) (s : WebSocketServerSession H)
        → HasWritten ws s
        → HasWritten ws (run_server_call x s)
    unfolding run_server_call
    run_server_call-grows (set_close_handler b) s p = p

    pub server_machine-grows : Keeps (server_machine react) (HasWritten ws)
    unfolding ServerSession.read_completed ServerSession.write_completed
    server_machine-grows =
        let grows = server_derived-IsGrowing ws in
        record {
          base = grows;
          own = run_server_call-grows;
          read = λ a s p _ _.
              if_cases (HasWritten ws) (failed a.ec)
                (λ _.
                  grows.close _
                    (notify_read-Preserves grows run_server_call-grows react a.ec [] _ p p))
                (λ _.
                  schedule_operations-Preserves grows _
                    (notify_read-Preserves grows run_server_call-grows react success _ _ p p));
          write = λ ec s p _.
              if_cases (HasWritten ws) (failed ec) (λ _. grows.close _ p)
                (λ _. schedule_operations-Preserves grows _ p);
        }
