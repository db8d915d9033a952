-- ===== src/Websocket/Server/Life.antt =====
-- The listener from `create` on, through all steps of the system.
use transit_session.Base.{
  ℕ, sym, ◌∙◌, ◌-◌, ◌<◌, ◌≡◌, refl, true, false, not, some, List, arith, if_cases, some-if, subst,
}
use transit_session.Errors.{ErrorCode, failed, is_aborted}
use transit_session.Core.{Call}
use transit_session.Websocket.{Bytes, Stream, WebSocketServerConfig}
use transit_session.Websocket.Server.{
  Acceptor, handshaking, WebSocketServer, new_server, open_server, create, start, session_started,
  admit, accept_completed, handshake_completed,
}
use transit_session.Websocket.Server.Sessions.{Step-Reports}
use transit_session.Websocket.Server.System.{
  SystemStep, sets, starts, stops, accepts, handshakes, runs, SystemReach, here, next,
  ConnectionsInv, put_session-ConnectionsInv, told-ConnectionsInv,
}
use transit_session.Websocket.Server.Listening.{
  handshake_completed-ConnectionsInv, admit-ConnectionsInv,
}
use transit_session.Websocket.Server.Stopping.{SystemInv, same-ConnectionsInv, stop-SystemInv}

module _ {H : Type 0} where
  -- What `admit` and a handshake leave alone.
  abbrev SameListening : WebSocketServer H → WebSocketServer H → Type 0
  SameListening w t =
      (t.accepts_pending ≡ w.accepts_pending)
      × (t.started ≡ w.started)
      × (t.acceptor_open ≡ w.acceptor_open)

  admit-SameListening :
      (stream : Stream) (no_delay_answer : ErrorCode) (w : WebSocketServer H)
      → SameListening w (admit stream no_delay_answer w)
  unfolding admit session_started
  admit-SameListening stream no_delay_answer w = ground arith

  accept_completed-SystemInv :
      (ec : ErrorCode) (stream : Stream) (no_delay_answer : ErrorCode) (w : WebSocketServer H)
      → SystemInv w
      → 0 < w.accepts_pending
      → stream.is_open ≡ true
      → (is_aborted ec ≡ true → w.acceptor_open ≡ false)
      → SystemInv (accept_completed ec stream no_delay_answer w)
  unfolding accept_completed
  accept_completed-SystemInv ec stream no_delay_answer w v h o a =
      if_cases SystemInv w.started
        (λ s.
          if_cases SystemInv (failed ec)
            (λ f.
              if_cases SystemInv (is_aborted ec)
                (λ b. record {
                  accepting = ground (arith, a b);
                  connections = told-ConnectionsInv ec ended fewer;
                })
                (λ b. record {
                  accepting = ground (arith, v.accepting);
                  connections =
                      same-ConnectionsInv _ _ _ _ _ _ (told-ConnectionsInv ec ended fewer);
                }))
            (λ f. record {
              accepting =
                  ground (arith, v.accepting, admit-SameListening stream no_delay_answer ended);
              connections =
                  same-ConnectionsInv _ _ _ _ _ _
                    (admit-ConnectionsInv ended fewer stream no_delay_answer o);
            }))
        (λ s. record { accepting = ground (arith, v.accepting); connections = fewer })
    where
      ended : WebSocketServer H
      ended = record w { accepts_pending = w.accepts_pending - 1 }

      fewer : ConnectionsInv ended
      fewer = same-ConnectionsInv w _ _ _ _ _ v.connections

  handshake-SystemInv :
      (k : ℕ) (ec : ErrorCode) (w : WebSocketServer H)
      → SystemInv w
      → w.phase k ≡ handshaking
      → SystemInv (handshake_completed k ec w)
  handshake-SystemInv k ec w v p = record {
    accepting = unfold handshake_completed session_started in ground (arith, v.accepting);
    connections = handshake_completed-ConnectionsInv w v.connections k ec p;
  }

  start-SystemInv : (w : WebSocketServer H) → SystemInv w → SystemInv (start w)
  unfolding start
  start-SystemInv w v =
      if_cases SystemInv w.started (λ _. v)
        (λ s. record {
          accepting = ground (arith, v.accepting);
          connections = same-ConnectionsInv w _ _ _ _ _ v.connections;
        })

  module _ (acceptor : Acceptor) where
    -- `open` of a listener that is closed, whatever the system answers, leaves the acceptor open
    -- exactly when no error is reported, and changes nothing else.
    pub open_server_lem :
        (w : WebSocketServer H)
        → w.acceptor_open ≡ false
        → let (ec, t) = open_server acceptor w in t ≡ record w { acceptor_open = not (failed ec) }
    unfolding open_server
    open_server_lem w c = ground arith

    module _ (unused : Stream) (config : WebSocketServerConfig) where
      create-SystemInv :
          (w : WebSocketServer H) → (create acceptor unused config).0 ≡ some w → SystemInv w
      unfolding create new_server
      create-SystemInv w e =
          let opening = open_server acceptor (new_server {H = H} unused config) in
          let (ok, same) = some-if (failed opening.0) opening.1 e in
          subst SystemInv (sym (open_server_lem (new_server unused config) refl) ∙ same) (record {
            accepting = λ _. refl;
            connections = record {
              members = λ k. refl;
              unused = λ k h. refl;
              living = λ k l. cc;
              opening = λ k l. cc;
              reported = λ k. omega arith;
            };
          })

  module _ (react : H → ErrorCode → Bytes → List (Call Bytes H ⊥)) where
    SystemStep-SystemInv :
        {w t : WebSocketServer H} → SystemStep react w t → SystemInv w → SystemInv t
    SystemStep-SystemInv (sets b) v = record {
      accepting = v.accepting;
      connections = same-ConnectionsInv _ _ _ _ _ _ v.connections;
    }
    SystemStep-SystemInv {w} starts v = start-SystemInv w v
    SystemStep-SystemInv {w} (stops e) v = stop-SystemInv w v e
    SystemStep-SystemInv {w} (accepts ec stream answer h o a) v =
        accept_completed-SystemInv ec stream answer w v h o a
    SystemStep-SystemInv {w} (handshakes k ec p) v = handshake-SystemInv k ec w v p
    SystemStep-SystemInv {w} (runs k {t} p st) v =
        let (i, r) = v.connections.living k (ground arith) in
        let (i', r', m) = Step-Reports react st i r in
        record {
          accepting = v.accepting;
          connections = put_session-ConnectionsInv w k t v.connections p i' r' m;
        }

    pub SystemReach-SystemInv :
        {w t : WebSocketServer H} → SystemInv w → SystemReach react w t → SystemInv t
    SystemReach-SystemInv v here = v
    SystemReach-SystemInv v (next r st) = SystemStep-SystemInv st (SystemReach-SystemInv v r)

    module _ (acceptor : Acceptor) (unused : Stream) (config : WebSocketServerConfig) where
      -- After any steps of a listener that `create` returned, with all its sessions, and whatever
      -- the callers, the network and the handlers of the sessions do, where `stop` is called only
      -- when its loop does not change the set that it iterates over, and users leave the close
      -- handler of a session alone: while the acceptor is open one accept is under way if the
      -- listener is started, and else none; the set of active sessions has exactly the connections
      -- whose handshake has succeeded and that are not closed; each of these satisfies the
      -- invariant of a server session, and its close handler was called once if it is closed and
      -- else not at all; and a connection is handed to the session handler at most once, and only
      -- after its handshake.
      pub created_server-SystemInv :
          {w t : WebSocketServer H}
          → (create acceptor unused config).0 ≡ some w
          → SystemReach react w t
          → SystemInv t
      created_server-SystemInv {w} e r =
          SystemReach-SystemInv (create-SystemInv acceptor unused config w e) r
