-- ===== src/Websocket/Server/Listening.antt =====
-- Accepts and handshakes keep what holds of the connections.
use transit_session.Base.{
  ℕ, ap, ◌⊎◌, inl, inr, ◌+◌, ◌≤◌, ◌<◌, ◌≡◌, refl, sym, subst, true, false, not, ◌&&◌, Option, none,
  some, arith, bit, at_cases, if_cases, if_both, ◌==◌,
}
use transit_session.Errors.{ErrorCode, success, failed}
use transit_session.Core.{construct}
use transit_session.Websocket.{Stream}
use transit_session.Websocket.ServerSession.{
  WebSocketServerSession, set_close_handler, run_server_call, close_transport,
}
use transit_session.Websocket.ServerSession
use transit_session.Websocket.ServerSession.Safety.{ServerInv}
use transit_session.Websocket.ServerSession.Start
use transit_session.Websocket.ServerSession.Start.{ready-eq, ready-ServerInv}
use transit_session.Websocket.Server.{
  Phase, handshaking, refused, is_up, WebSocketServer, update, put_session, with_phase,
  session_started, admit, handshake_completed,
}
use transit_session.Websocket.Server.Sessions.{Reports}
use transit_session.Websocket.Server.System.{
  ConnectionsInv, is_live, told-ConnectionsInv, refused-ConnectionsInv, settled-ConnectionsInv,
  handed_over,
}

module _ {H : Type 0} (w : WebSocketServer H) (v : ConnectionsInv w) where
  pub handshake_completed-ConnectionsInv :
      (k : ℕ) (ec : ErrorCode)
      → w.phase k ≡ handshaking
      → ConnectionsInv (handshake_completed k ec w)
  unfolding handshake_completed ServerSession.Start.accept_completed
  handshake_completed-ConnectionsInv k ec p =
      settled-ConnectionsInv w k (ServerSession.Start.accept_completed ec (w.session k)) v
        (ground arith) known ec kept
    where
      known : k < w.made
      known = ground (arith, v.unused k)

      kept :
          failed ec ≡ false
          → let t = ServerSession.Start.accept_completed ec (w.session k) in
            ServerInv t × Reports t × (t.closed ≡ false)
      kept f =
          let (i, r) = v.living k (ground arith) in
          if_cases (λ (t : WebSocketServerSession H). ServerInv t × Reports t × (t.closed ≡ false))
            (failed ec) (λ g. cc) (λ _. (i, r, v.opening k p))

  module _ (stream : Stream) (no_delay_answer : ErrorCode) (is_open : stream.is_open ≡ true) where
    -- The new object with its close handler.
    abbrev fresh : WebSocketServerSession H
    fresh = run_server_call (set_close_handler true) (ServerSession.create stream w.config)

    abbrev registered : WebSocketServer H
    registered = record w { made = w.made + 1; session = update w.session w.made fresh }

    registered-ConnectionsInv : ConnectionsInv registered
    registered-ConnectionsInv = record {
      members = λ j. ground (arith, v.members j, v.unused j);
      unused = λ j h. ground (arith, v.unused j);
      living = λ j.
          if_cases (λ s. is_live (w.phase j) ≡ true → ServerInv s × Reports s) (j == w.made)
            (λ e l. absurd (ground (arith, v.unused j))) (λ _. v.living j);
      opening = λ j.
          if_cases (λ (s : WebSocketServerSession H). w.phase j ≡ handshaking → s.closed ≡ false)
            (j == w.made) (λ e l. absurd (ground (arith, v.unused j))) (λ _. v.opening j);
      reported = v.reported;
    }

    -- The handshake has begun on the session with its options.
    begun-ConnectionsInv :
        (t : WebSocketServerSession H)
        → ServerInv t
        → Reports t
        → t.closed ≡ false
        → ConnectionsInv (with_phase w.made handshaking (put_session w.made t registered))
    unfolding run_server_call ServerSession.create construct
    begun-ConnectionsInv t i r c = record {
      members =
          at_cases k
            (λ j. (put_session k t registered).active j ≡ (
              is_up (update w.phase k handshaking j)
              && not (update (update w.session k fresh) k t j).closed))
            (ground (arith, v.members k, v.unused k))
            (λ j n. ground (arith, registered-ConnectionsInv.members j));
      unused = λ j h. ground (arith, v.unused j);
      living = λ j.
          if_both
            (λ (s : WebSocketServerSession H) (q : Phase).
              is_live q ≡ true → ServerInv s × Reports s)
            (j == k) (λ _ _. (i, r)) (λ _. registered-ConnectionsInv.living j);
      opening = λ j.
          if_both (λ (s : WebSocketServerSession H) (q : Phase). q ≡ handshaking → s.closed ≡ false)
            (j == k) (λ _ _. c) (λ _. registered-ConnectionsInv.opening j);
      reported =
          at_cases k (λ j. handed_over j w.outcomes ≤ bit (is_up (update w.phase k handshaking j)))
            (ground (arith, v.reported k, v.unused k)) (λ j n. ground (arith, v.reported j));
    }
      where
        k : ℕ
        k = w.made

    abbrev answered : WebSocketServerSession H × Option ErrorCode
    answered = ServerSession.Start.start no_delay_answer fresh

    -- The session whose handshake has begun.
    answered-Reports :
        answered.1 ≡ none → ServerInv answered.0 × Reports answered.0 × (answered.0.closed ≡ false)
    unfolding ServerSession.Start.accept_completed run_server_call ServerSession.create construct
    answered-Reports e =
        let same = ready-eq stream w.config true no_delay_answer success is_open e refl in
        (
          (ready-ServerInv stream w.config true no_delay_answer success is_open e refl).0,
          ground (arith, same),
          ap (λ (s : WebSocketServerSession H). s.closed) same,
        )

    answered_cases :
        (answered.1 ≡ none)
        ⊎ ((failed no_delay_answer ≡ true)
            × (answered ≡ (close_transport fresh, some no_delay_answer)))
    unfolding ServerSession.Start.start
    answered_cases =
        if_cases
          (λ (r : WebSocketServerSession H × Option ErrorCode).
            (r.1 ≡ none)
            ⊎ ((failed no_delay_answer ≡ true)
                × (r ≡ (close_transport fresh, some no_delay_answer))))
          (fresh.own.config.tcp_no_delay && failed no_delay_answer) (λ b. inr (ground arith, refl))
          (λ _. inl refl)

    -- What `admit` makes of the answer.
    abbrev continued : WebSocketServerSession H × Option ErrorCode → WebSocketServer H
    continued (t, answer) = elim answer [
      | some ec ↦
          session_started w.made ec (with_phase w.made refused (put_session w.made t registered))
      | none ↦ with_phase w.made handshaking (put_session w.made t registered)
    ]

    pub admit-ConnectionsInv : ConnectionsInv (admit stream no_delay_answer w)
    unfolding admit session_started
    admit-ConnectionsInv = elim answered_cases [
      | inl e ↦
          let (i, r, c) = answered-Reports e in
          let split : answered ≡ (answered.0, none) =
            ap (λ (o : Option ErrorCode). (answered.0, o)) e in
          subst (λ r. ConnectionsInv (continued r)) (sym split)
            (begun-ConnectionsInv answered.0 i r c)
      | inr (f, e) ↦
          subst (λ r. ConnectionsInv (continued r)) (sym e)
            (if_cases ConnectionsInv (failed no_delay_answer)
              (λ _. told-ConnectionsInv no_delay_answer _ (
                refused-ConnectionsInv registered w.made _ registered-ConnectionsInv
                  (ground (arith, v.unused w.made)) (omega arith)))
              (λ g. cc))
    ]
