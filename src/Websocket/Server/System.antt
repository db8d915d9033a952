-- ===== src/Websocket/Server/System.antt =====
-- The listener with all its sessions as a transition system, and what holds between two steps.
use transit_session.Base.{
  ℕ, ◌+◌, ◌≤◌, ◌<◌, ◌≡◌, refl, Bool, true, false, not, ◌&&◌, Option, none, some, List, [], ◌∷◌,
  arith, bit, at_cases, if_cases, if_both, if◌then◌else◌, ◌==◌,
}
use transit_session.Errors.{ErrorCode, failed, is_aborted}
use transit_session.Core.{Call}
use transit_session.Core.Machine.{Step}
use transit_session.Websocket.{Bytes, Stream}
use transit_session.Websocket.ServerSession.{WebSocketServerSession}
use transit_session.Websocket.ServerSession.Safety.{ServerInv}
use transit_session.Websocket.Server.{
  Phase, absent, handshaking, refused, up, is_up, WebSocketServer, update, set_session_handler,
  call_session_handler, start, put_session, stop, with_phase, session_started, accept_completed,
  handshake_completed,
}
use transit_session.Websocket.Server.Sessions.{user_machine, Reports}

abbrev pub is_live : Phase → Bool
is_live handshaking = true
is_live up = true
is_live _ = false

-- How often a connection was handed to the session handler.
abbrev pub handed_over : ℕ → List (ErrorCode × Option ℕ) → ℕ
handed_over k [] = 0
handed_over k ((_, none) ∷ os) = handed_over k os
handed_over k ((_, some j) ∷ os) = handed_over k os + bit (j == k)

module _ {H : Type 0} where
  -- The callers' calls, the completions of an accept and of a handshake, and the steps of a session
  -- that was handed over. An accept is only aborted by the close of the acceptor. A `stop` whose loop
  -- changes the set that it iterates over is undefined, and is no step.
  pub data SystemStep (react : H → ErrorCode → Bytes → List (Call Bytes H ⊥))
      (w : WebSocketServer H) : WebSocketServer H → Type 0 where
    sets : (b : Bool) → SystemStep react w (set_session_handler b w)
    starts : SystemStep react w (start w)
    stops : (stop w).erased_in_loop ≡ false → SystemStep react w (stop w)
    accepts :
        (ec : ErrorCode) (stream : Stream) (no_delay_answer : ErrorCode)
        → 0 < w.accepts_pending
        → stream.is_open ≡ true
        → (is_aborted ec ≡ true → w.acceptor_open ≡ false)
        → SystemStep react w (accept_completed ec stream no_delay_answer w)
    handshakes :
        (k : ℕ) (ec : ErrorCode)
        → w.phase k ≡ handshaking
        → SystemStep react w (handshake_completed k ec w)
    runs :
        (k : ℕ) {t : WebSocketServerSession H}
        → w.phase k ≡ up
        → Step (user_machine react) (w.session k) t
        → SystemStep react w (put_session k t w)

  pub data SystemReach (react : H → ErrorCode → Bytes → List (Call Bytes H ⊥))
      (w : WebSocketServer H) : WebSocketServer H → Type 0 where
    here : SystemReach react w w
    next :
        {v u : WebSocketServer H}
        → SystemReach react w v
        → SystemStep react v u
        → SystemReach react w u

  pub record ConnectionsInv (w : WebSocketServer H) : Type 0 where
    -- The set has the connections whose handshake has succeeded and that are not closed.
    pub members : (k : ℕ) → w.active k ≡ (is_up (w.phase k) && not (w.session k).closed)
    pub unused : (k : ℕ) → w.made ≤ k → w.phase k ≡ absent
    pub living :
        (k : ℕ) → is_live (w.phase k) ≡ true → ServerInv (w.session k) × Reports (w.session k)
    pub opening : (k : ℕ) → w.phase k ≡ handshaking → (w.session k).closed ≡ false
    -- A connection is handed over at most once, and only after its handshake.
    pub reported : (k : ℕ) → handed_over k w.outcomes ≤ bit (is_up (w.phase k))

  -- A connection that is alive moves on.
  pub put_session-ConnectionsInv :
      (w : WebSocketServer H) (k : ℕ) (t : WebSocketServerSession H)
      → ConnectionsInv w
      → w.phase k ≡ up
      → ServerInv t
      → Reports t
      → ((w.session k).closed ≡ true → t.closed ≡ true)
      → ConnectionsInv (put_session k t w)
  put_session-ConnectionsInv w k t v p i r m = record {
    members =
        at_cases k
          (λ j.
            (put_session k t w).active j
            ≡ (is_up (w.phase j) && not (update w.session k t j).closed))
          (ground (arith, v.members k, v.living k, m)) (λ j n. ground (arith, v.members j));
    unused = v.unused;
    living = λ j.
        if_cases (λ s. is_live (w.phase j) ≡ true → ServerInv s × Reports s) (j == k)
          (λ _ _. (i, r)) (λ _. v.living j);
    opening =
        at_cases k (λ j. w.phase j ≡ handshaking → (update w.session k t j).closed ≡ false)
          (λ h. cc) (λ j n h. ground (arith, v.opening j));
    reported = v.reported;
  }

  pub told-ConnectionsInv :
      (ec : ErrorCode) (w : WebSocketServer H)
      → ConnectionsInv w
      → ConnectionsInv (call_session_handler ec none w)
  told-ConnectionsInv ec w v =
      if_cases ConnectionsInv w.session_handler_set
        (λ _. record {
          members = v.members;
          unused = v.unused;
          living = v.living;
          opening = v.opening;
          reported = v.reported;
        })
        (λ _. v)

  -- The session handler is given a connection that it was not given before.
  given-ConnectionsInv :
      (ec : ErrorCode) (k : ℕ) (w : WebSocketServer H)
      → ConnectionsInv w
      → is_up (w.phase k) ≡ true
      → handed_over k w.outcomes ≡ 0
      → ConnectionsInv (call_session_handler ec (some k) w)
  given-ConnectionsInv ec k w v p z =
      if_cases ConnectionsInv w.session_handler_set
        (λ _. record {
          members = v.members;
          unused = v.unused;
          living = v.living;
          opening = v.opening;
          reported =
              at_cases k (λ j. handed_over j w.outcomes + bit (k == j) ≤ bit (is_up (w.phase j)))
                (ground arith) (λ j n. ground (arith, v.reported j));
        })
        (λ _. v)

  -- A connection whose handshake is under way, or that has just been made.
  module _ (w : WebSocketServer H) (k : ℕ) (t : WebSocketServerSession H) (v : ConnectionsInv w)
      (p : is_up (w.phase k) ≡ false) (old : k < w.made) where
    pub refused-ConnectionsInv : ConnectionsInv (with_phase k refused (put_session k t w))
    refused-ConnectionsInv = record {
      members =
          at_cases k
            (λ j.
              (put_session k t w).active j
              ≡ (is_up (update w.phase k refused j) && not (update w.session k t j).closed))
            (ground (arith, v.members k)) (λ j n. ground (arith, v.members j));
      unused =
          at_cases k (λ j. w.made ≤ j → update w.phase k refused j ≡ absent)
            (λ h. absurd (omega arith)) (λ j n h. ground (arith, v.unused j));
      living = λ j.
          if_both (λ s q. is_live q ≡ true → ServerInv s × Reports s) (j == k) (λ _ l. cc)
            (λ _. v.living j);
      opening = λ j.
          if_both (λ (s : WebSocketServerSession H) (q : Phase). q ≡ handshaking → s.closed ≡ false)
            (j == k) (λ _ l. cc) (λ _. v.opening j);
      reported =
          at_cases k (λ j. handed_over j w.outcomes ≤ bit (is_up (update w.phase k refused j)))
            (ground (arith, v.reported k)) (λ j n. ground (arith, v.reported j));
    }

    module _ (i : ServerInv t) (r : Reports t) (c : t.closed ≡ false) where
      -- The connection in the set.
      abbrev raised : WebSocketServer H
      raised =
          let moved = with_phase k up (put_session k t w) in
          record moved { active = update moved.active k true }

      raised-ConnectionsInv : ConnectionsInv raised
      raised-ConnectionsInv = record {
        members =
            at_cases k
              (λ j. raised.active j ≡ (is_up (raised.phase j) && not (raised.session j).closed))
              (ground arith) (λ j n. ground (arith, v.members j));
        unused =
            at_cases k (λ j. w.made ≤ j → raised.phase j ≡ absent) (λ h. absurd (omega arith))
              (λ j n h. ground (arith, v.unused j));
        living = λ j.
            if_both (λ s q. is_live q ≡ true → ServerInv s × Reports s) (j == k) (λ _ _. (i, r))
              (λ _. v.living j);
        opening = λ j.
            if_both
              (λ (s : WebSocketServerSession H) (q : Phase). q ≡ handshaking → s.closed ≡ false)
              (j == k) (λ _ l. cc) (λ _. v.opening j);
        reported =
            at_cases k (λ j. handed_over j w.outcomes ≤ bit (is_up (raised.phase j)))
              (ground (arith, v.reported k)) (λ j n. ground (arith, v.reported j));
      }

    -- The outcome of a handshake: the connection goes up and into the set, or is refused, and the
    -- session handler hears of it.
    pub settled-ConnectionsInv :
        (ec : ErrorCode)
        → (failed ec ≡ false → ServerInv t × Reports t × (t.closed ≡ false))
        → ConnectionsInv (
            session_started k ec
              (with_phase k (if failed ec then refused else up) (put_session k t w)))
    unfolding session_started
    settled-ConnectionsInv ec good = by_outcome (failed ec) good
      where
        by_outcome :
            (b : Bool)
            → (b ≡ false → ServerInv t × Reports t × (t.closed ≡ false))
            → let moved = with_phase k (if b then refused else up) (put_session k t w) in
              ConnectionsInv (
                if b
                then call_session_handler ec none moved
                else call_session_handler ec
                    (some k)
                    (record moved { active = update moved.active k true }))
        by_outcome true h = told-ConnectionsInv ec _ refused-ConnectionsInv
        by_outcome false h =
            let (i, r, c) = h refl in
            given-ConnectionsInv ec k _ (raised-ConnectionsInv i r c) (ground arith)
              (ground (arith, v.reported k))
