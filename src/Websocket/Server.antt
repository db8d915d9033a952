-- ===== src/Websocket/Server.antt =====
-- transport/websocket/websocket_server.hpp: the listener. An io_context is run by one thread, as in
-- every program of the repository, so that `dispatch` from a handler to another strand runs at once:
-- each function here is what happens in one handler, the session's part and the listener's together.
use transit_session.Base.{
  ℕ, zero, suc, ◌+◌, ◌-◌, ◌<◌, ◌≡◌, Bool, true, false, Option, none, some, List, [], ◌∷◌,
  if◌then◌else◌, ltb, ◌==◌,
}
use Prim.Native.String.{String}
use transit_session.Errors.{ErrorCode, success, failed, is_aborted}
use transit_session.Core.{close_session}
use transit_session.Websocket.{Stream, WebSocketServerConfig}
use transit_session.Websocket.ServerSession.{
  WebSocketServerSession, set_close_handler, run_server_call, close_transport,
}
use transit_session.Websocket.ServerSession
use transit_session.Websocket.ServerSession.Start
pub mod Sessions
pub mod System
pub mod Listening
pub mod Stopping
pub mod Life
pub mod Restart
mod Tests

-- What `make_address` and the acceptor answer.
pub record Acceptor : Type 0 where
  pub address_answer : String → ErrorCode
  pub open_answer : ErrorCode
  pub reuse_answer : ErrorCode
  pub bind_answer : String → ℕ → ErrorCode
  pub listen_answer : ℕ → ErrorCode

-- Ghost: how far a connection has come.
pub data Phase : Type 0 where
  absent handshaking refused up : Phase

abbrev pub is_up : Phase → Bool
is_up up = true
is_up _ = false

-- The members of `WebSocketServer`; `active` is the set `active_sessions_`. Connections are numbered
-- as they are accepted, and `session` has their objects; what it has at other numbers is not used.
-- Ghost: `made` is the count of connections, `accepts_pending` that of the accepts under way, and
-- `outcomes` what the session handler was called with, newest first; `erased_in_loop` says that the
-- set was changed while `stop` was iterating over it, which is undefined behaviour.
pub record WebSocketServer (H : Type 0) : Type 0 where
  pub started : Bool
  pub acceptor_open : Bool
  pub config : WebSocketServerConfig
  pub session_handler_set : Bool
  pub active : ℕ → Bool
  pub session : ℕ → WebSocketServerSession H
  pub phase : ℕ → Phase
  pub made : ℕ
  pub accepts_pending : ℕ
  pub outcomes : List (ErrorCode × Option ℕ)
  pub erased_in_loop : Bool

-- A map that is changed at one key.
abbrev pub update {ℓ} : {A : Type ℓ} → (ℕ → A) → ℕ → A → ℕ → A
update f k a j = if j == k then a else f j

module _ {H : Type 0} where
  -- The constructor.
  unfoldable pub new_server : Stream → WebSocketServerConfig → WebSocketServer H
  new_server unused config = record {
    started = false;
    acceptor_open = false;
    config = config;
    session_handler_set = false;
    active = λ _. false;
    session = λ _. ServerSession.create unused config;
    phase = λ _. absent;
    made = 0;
    accepts_pending = 0;
    outcomes = [];
    erased_in_loop = false;
  }

  module _ (acceptor : Acceptor) where
    abbrev pub with_acceptor : Bool → WebSocketServer H → WebSocketServer H
    with_acceptor b w = record w { acceptor_open = b }

    -- `open` from the acceptor's `open` on: after an error the acceptor is closed.
    abbrev pub bind_and_listen : WebSocketServer H → ErrorCode × WebSocketServer H
    bind_and_listen w =
        let bound = acceptor.bind_answer w.config.bind_address w.config.port in
        let listening = acceptor.listen_answer w.config.backlog in
        if failed acceptor.reuse_answer
        then (acceptor.reuse_answer, with_acceptor false w)
        else (if failed bound
            then (bound, with_acceptor false w)
            else (listening, if failed listening then with_acceptor false w else w))

    unfoldable pub open_server : WebSocketServer H → ErrorCode × WebSocketServer H
    open_server w =
        let address = acceptor.address_answer w.config.bind_address in
        if failed address
        then (address, w)
        else (if failed acceptor.open_answer
            then (acceptor.open_answer, w)
            else bind_and_listen (with_acceptor true w))

    -- The pointer that is returned, and the code.
    unfoldable pub create : Stream → WebSocketServerConfig → Option (WebSocketServer H) × ErrorCode
    create unused config =
        let (ec, w) = open_server (new_server unused config) in
        (if failed ec then none else some w, ec)

  abbrev pub set_session_handler : Bool → WebSocketServer H → WebSocketServer H
  set_session_handler b w = record w { session_handler_set = b }

  -- `if (session_handler_) session_handler_(ec, session)`.
  abbrev pub call_session_handler : ErrorCode → Option ℕ → WebSocketServer H → WebSocketServer H
  call_session_handler ec k w =
      if w.session_handler_set then record w { outcomes = (ec, k) ∷ w.outcomes } else w

  abbrev pub do_accept : WebSocketServer H → WebSocketServer H
  do_accept w = record w { accepts_pending = w.accepts_pending + 1 }

  unfoldable pub start : WebSocketServer H → WebSocketServer H
  start w = if w.started then w else do_accept (record w { started = true })

  -- Something happened to connection `k`. If it called the close handler, the handler takes the
  -- connection out of the set.
  abbrev pub put_session : ℕ → WebSocketServerSession H → WebSocketServer H → WebSocketServer H
  put_session k t w = record w {
    session = update w.session k t;
    active =
        if ltb (w.session k).own.close_calls t.own.close_calls
        then update w.active k false
        else w.active;
  }

  -- One round of the loop of `stop`. A close handler that takes its connection out of the set changes
  -- the set under the loop: what the loop does from there on is undefined, and no round after it is
  -- modelled.
  abbrev pub stop_session : ℕ → WebSocketServer H → WebSocketServer H
  stop_session k w =
      let t = close_session close_transport (w.session k) in
      if w.erased_in_loop
      then w
      else (if w.active k
          then record (put_session k t w) {
            erased_in_loop = ltb (w.session k).own.close_calls t.own.close_calls;
          }
          else w)

  -- The loop, over the numbers below a bound.
  abbrev pub stop_sessions : ℕ → WebSocketServer H → WebSocketServer H
  stop_sessions zero w = w
  stop_sessions (suc n) w = stop_session n (stop_sessions n w)

  unfoldable pub stop : WebSocketServer H → WebSocketServer H
  stop w = stop_sessions w.made (record w { started = false; acceptor_open = false })

  -- The start handler that `do_accept` passes to a session.
  unfoldable pub session_started : ℕ → ErrorCode → WebSocketServer H → WebSocketServer H
  session_started k start_ec w =
      if failed start_ec
      then call_session_handler start_ec none w
      else call_session_handler start_ec (some k) (record w { active = update w.active k true })

  abbrev pub with_phase : ℕ → Phase → WebSocketServer H → WebSocketServer H
  with_phase k p w = record w { phase = update w.phase k p }

  -- A new connection with its close handler, and `start` on it.
  unfoldable pub admit : Stream → ErrorCode → WebSocketServer H → WebSocketServer H
  admit stream no_delay_answer w =
      let k = w.made in
      let fresh = run_server_call (set_close_handler true) (ServerSession.create stream w.config) in
      let (t, answer) = ServerSession.Start.start no_delay_answer fresh in
      let registered = record w { made = k + 1; session = update w.session k fresh } in
      elim answer [
        | some ec ↦ session_started k ec (with_phase k refused (put_session k t registered))
        | none ↦ with_phase k handshaking (put_session k t registered)
      ]

  -- The completion of `async_accept`, with the accepted socket and what `set_option` will answer.
  unfoldable pub accept_completed :
      ErrorCode → Stream → ErrorCode → WebSocketServer H → WebSocketServer H
  accept_completed ec stream no_delay_answer w =
      let ended = record w { accepts_pending = w.accepts_pending - 1 } in
      if w.started
      then (if failed ec
          then (let told = call_session_handler ec none ended in
              if is_aborted ec then told else do_accept told)
          else do_accept (admit stream no_delay_answer ended))
      else ended

  -- The completion of the handshake of connection `k`.
  unfoldable pub handshake_completed : ℕ → ErrorCode → WebSocketServer H → WebSocketServer H
  handshake_completed k accept_ec w = session_started k accept_ec (
      with_phase k (if failed accept_ec then refused else up)
        (put_session k (ServerSession.Start.accept_completed accept_ec (w.session k)) w))
