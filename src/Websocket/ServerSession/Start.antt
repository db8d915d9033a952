-- ===== src/Websocket/ServerSession/Start.antt =====
-- transport/websocket/websocket_server_session.hpp: `start`, which accepts the handshake, and the
-- life of a session from there on.
use transit_session.Base.{
  subst, sym, ◌+◌, ◌≡◌, refl, inr, Bool, true, false, ◌&&◌, Option, none, some, List, arith,
  if◌then◌else◌, bit,
}
use transit_session.Errors.{ErrorCode, failed}
use transit_session.Core.{Call, construct, close_session}
use transit_session.Core.Machine.{Reach}
use transit_session.Core.Invariant.{construct-Inv}
use transit_session.Core.Ended.{assign-Inv}
use transit_session.Core.Settled.{Settled}
use transit_session.Websocket.{suggested_server, Bytes, Stream, WebSocketServerConfig}
use transit_session.Websocket.ServerSession.{
  server_state, run_server_call, set_close_handler, WebSocketServerSession, ServerCall, create,
  close_transport, server_machine,
}
use transit_session.Websocket.ServerSession.Safety.{ServerInv, server_session-ServerInv}
use transit_session.Websocket.ServerSession.Progress.{server_session-Settled}

module _ {H : Type 0} where
  -- With the stream's options from the configuration.
  abbrev configured : WebSocketServerSession H → WebSocketServerSession H
  configured s = record s {
    own = record (s.own) {
      stream = record (s.own.stream) {
        read_message_max = s.own.config.max_message_size;
        timeout = suggested_server;
        binary = s.own.config.binary_mode;
      };
    };
  }

  -- `start` with the answer to `set_option(no_delay)`: the session, and the code that the start
  -- handler is called with at once. With `none` the handshake is under way.
  unfoldable pub start :
      ErrorCode → WebSocketServerSession H → WebSocketServerSession H × Option ErrorCode
  start no_delay_answer s =
      if s.own.config.tcp_no_delay && failed no_delay_answer
      then (close_transport s, some no_delay_answer)
      else (configured s, none)

  -- The completion of `async_accept`; the start handler is called with the same code.
  unfoldable pub accept_completed : ErrorCode → WebSocketServerSession H → WebSocketServerSession H
  accept_completed accept_ec s = if failed accept_ec then close_transport s else s

  -- A handshake that fails, in a session that is open and was never closed, closes the stream and
  -- calls the close handler once if it is set, but leaves the session open; a later `close` closes
  -- the session and does not call the handler again.
  pub failed_start :
      (ec : ErrorCode) (s : WebSocketServerSession H)
      → failed ec ≡ true
      → s.own.close_notified ≡ false
      → s.closed ≡ false
      → let t = accept_completed ec s in
        let u = close_session close_transport t in
        (t.own.stream.is_open ≡ false)
        × (t.own.close_calls ≡ s.own.close_calls + bit s.own.close_handler_set)
        × (t.closed ≡ false)
        × (u.closed ≡ true)
        × (u.own.close_calls ≡ t.own.close_calls)
  unfolding accept_completed close_transport close_session
  failed_start ec s f n c = ground arith

  module _ (stream : Stream) (config : WebSocketServerConfig) (handler_set : Bool)
      (no_delay_answer accept_ec : ErrorCode) where
    -- A connection as the server makes it: created, given a close handler or none, and started.
    abbrev pub accepted_session : WebSocketServerSession H × Option ErrorCode
    accepted_session =
        start no_delay_answer
          (run_server_call (set_close_handler handler_set) (create stream config))

    -- The session when the start handler is called.
    abbrev pub ready : WebSocketServerSession H
    ready = accept_completed accept_ec accepted_session.0

    module _ (is_open : stream.is_open ≡ true) (begun : accepted_session.1 ≡ none)
        (ok : failed accept_ec ≡ false) where
      pub ready-eq :
          ready
          ≡ configured (run_server_call (set_close_handler handler_set) (create stream config))
      unfolding start accept_completed
      ready-eq = ground arith

      pub ready-ServerInv : ServerInv ready × Settled ready
      unfolding run_server_call create construct
      ready-ServerInv =
          subst (λ t. ServerInv t × Settled t) (sym ready-eq)
            (
              record {
                base =
                    assign-Inv _ (construct-Inv (server_state stream config)) none false _
                      (λ _. refl);
                waiting = λ f. cc;
                mode = refl;
                limit = refl;
                opened = λ _. is_open;
                shut = λ f. cc;
                notified = refl;
                once = omega arith;
              },
              record { sending = inr (inr refl); reading = inr (inr refl) },
            )

      module _ (react : H → ErrorCode → Bytes → List (Call Bytes H ServerCall)) where
        -- After any steps of a server session over an open socket, from the moment at which `start`
        -- has set the options and the handshake has succeeded, with a close handler or none, and
        -- whatever the calls, the handlers, the arrivals and the results of the writes: every read
        -- and write that was started, and has not completed, is shown by its flag, so there is at
        -- most one of each; no operation was started beside one of its kind or after the stream was
        -- closed, and it was closed at most once; every call of the read handler came directly
        -- after a read had completed; the messages whose write was started are, in order, the front
        -- of those that were accepted, and while the session is open the rest is what is queued
        -- behind the write under way; a closed session has nothing queued and does not read; the
        -- message of a write under way stays at the front of the queue while the session is open;
        -- and the events are a run of the channel of Core/Channel that ends as the session stands.
        -- A read under way began with an empty buffer; the stream is in the configured mode, with
        -- the configured limit, and is open exactly while the session is; and the close handler was
        -- called at most once, and not while the session is open.
        pub accepted_server-ServerInv :
            {t : WebSocketServerSession H} → Reach (server_machine react) ready t → ServerInv t
        accepted_server-ServerInv r = server_session-ServerInv react ready-ServerInv.0 r

        -- Between any two steps of a server session over an open socket, after the options were set
        -- and the handshake has succeeded, no wake-up is lost: it is closed, or a write is under
        -- way or nothing is queued; and it is closed, or a read is under way or reading is off.
        pub accepted_server-Settled :
            {t : WebSocketServerSession H} → Reach (server_machine react) ready t → Settled t
        accepted_server-Settled r = server_session-Settled react ready-ServerInv.1 r
