-- ===== src/Websocket/Server/Restart.antt =====
-- What the listener does when it is started again after `stop`, and when it is stopped during a
-- handshake.
use transit_session.Base.{ℕ, ◌≡◌, true, false, List, [], ◌∷◌, arith}
use transit_session.Errors.{ErrorCode, success, failed, is_aborted}
use transit_session.Websocket.{Stream}
use transit_session.Websocket.ServerSession
use transit_session.Websocket.Server.{
  handshaking, WebSocketServer, stop, session_started, accept_completed, handshake_completed,
}
use transit_session.Websocket.Server.Stopping.{SystemInv, stop_sessions-Spared}

-- Errors that the listener answers with another accept.
abbrev pub AllRefused : List ErrorCode → Type 0
AllRefused [] = Unit {0}
AllRefused (ec ∷ ecs) = (failed ec ≡ true) × (is_aborted ec ≡ false) × AllRefused ecs

module _ {H : Type 0} where
  -- One accept after another completes with the codes.
  abbrev pub complete_accepts :
      List ErrorCode → Stream → ErrorCode → WebSocketServer H → WebSocketServer H
  complete_accepts [] stream no_delay_answer w = w
  complete_accepts (ec ∷ ecs) stream no_delay_answer w =
      accept_completed ec stream no_delay_answer (complete_accepts ecs stream no_delay_answer w)

  -- A handshake that is under way when the listener is stopped, from a state that satisfies the
  -- invariant, and then succeeds, puts an open connection into the set of the stopped listener.
  pub late_handshake :
      (w : WebSocketServer H) (k : ℕ)
      → SystemInv w
      → w.phase k ≡ handshaking
      → let t = handshake_completed k success (stop w) in
        (t.active k ≡ true) × ((t.session k).closed ≡ false) × (t.started ≡ false)
  unfolding handshake_completed session_started stop ServerSession.Start.accept_completed
  late_handshake w k v p =
      let out : w.active k ≡ false = ground (arith, v.connections.members k) in
      let (a, s, q, st, _, _, _, _, _) =
        stop_sessions-Spared w.made k (record w { started = false; acceptor_open = false }) out in
      ground (arith, v.connections.opening k)
