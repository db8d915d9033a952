-- ===== src/Websocket/Server/Stopping.antt =====
-- `stop`: what its loop does to the connections and the set.
use transit_session.Base.{
  ℕ, zero, suc, ◌∙◌, ◌<◌, ◌⊎◌, sym, ap, inl, inr, ◌≡◌, refl, subst, Bool, true, false, [], arith,
  bit, Bool-cases, if_cases, ◌==◌,
}
use transit_session.Core.{Call, close_session, construct}
use transit_session.Core.Machine.{calls}
use transit_session.Core
use transit_session.Websocket.ServerSession.{close_transport}
use transit_session.Websocket.ServerSession.Safety.{ServerInv}
use transit_session.Websocket.Server.{up, WebSocketServer, stop_session, stop_sessions, stop}
use transit_session.Websocket.Server.Sessions.{Reports, Step-Reports}
use transit_session.Websocket.Server.System.{ConnectionsInv}

module _ {H : Type 0} where
  pub record SystemInv (w : WebSocketServer H) : Type 0 where
    -- While the acceptor is open there is one accept under way if the listener is started, else none.
    pub accepting : w.acceptor_open ≡ true → w.accepts_pending ≡ bit w.started
    pub connections : ConnectionsInv w

  -- The fields that `ConnectionsInv` does not read.
  pub same-ConnectionsInv :
      (w : WebSocketServer H) (s o e h : Bool) (n : ℕ)
      → ConnectionsInv w
      → ConnectionsInv (record w {
        started = s;
        acceptor_open = o;
        accepts_pending = n;
        erased_in_loop = e;
        session_handler_set = h;
      })
  same-ConnectionsInv w s o e h n v = record {
    members = v.members;
    unused = v.unused;
    living = v.living;
    opening = v.opening;
    reported = v.reported;
  }

  -- The close of a connection in the set, as a step of its session.
  closes :
      (k : ℕ) (w : WebSocketServer H)
      → ConnectionsInv w
      → w.active k ≡ true
      → let t = close_session close_transport (w.session k) in
        ServerInv t
        × Reports t
        × ((w.session k).closed ≡ true → t.closed ≡ true)
        × (t.closed ≡ true)
        × (w.phase k ≡ up)
        × ((w.session k).closed ≡ false)
  unfolding Core.run_call close_session close_transport
  closes k w v a =
      let (i, r) = v.living k (ground (arith, v.members k)) in
      let (i', r', m) = Step-Reports (λ h ec b. []) (calls Core.close) i r in
      (i', r', m, ground arith, ground (arith, v.members k), ground (arith, v.members k))

  stop_session-erases :
      (k : ℕ) (w : WebSocketServer H)
      → ConnectionsInv w
      → w.active k ≡ true
      → (stop_session k w).erased_in_loop ≡ true
  stop_session-erases k w v a =
      if_cases (λ (t : WebSocketServer H). t.erased_in_loop ≡ true) w.erased_in_loop (λ e. e)
        (λ _.
          if_cases (λ (t : WebSocketServer H). t.erased_in_loop ≡ true) (w.active k)
            (λ _.
              let (_, r, _, c, p, o) = closes k w v a in
              let was = (v.living k (ground arith)).1 in ground arith)
            (λ f. absurd (cc)))

  stop_session-erased :
      (k : ℕ) (w : WebSocketServer H) → w.erased_in_loop ≡ true → stop_session k w ≡ w
  stop_session-erased k w e =
      if_cases (λ (t : WebSocketServer H). t ≡ w) w.erased_in_loop (λ _. refl) (λ f. absurd (cc))

  stop_session-idle : (k : ℕ) (w : WebSocketServer H) → w.active k ≡ false → stop_session k w ≡ w
  stop_session-idle k w a =
      if_cases (λ (t : WebSocketServer H). t ≡ w) w.erased_in_loop (λ _. refl)
        (λ _.
          if_cases (λ (t : WebSocketServer H). t ≡ w) (w.active k) (λ f. absurd (cc)) (λ _. refl))

  -- The loop changes the set under itself, or it met no member and changes nothing.
  stop_sessions_cases :
      (n : ℕ) (w : WebSocketServer H)
      → ConnectionsInv w
      → ((stop_sessions n w).erased_in_loop ≡ true)
        ⊎ ((stop_sessions n w ≡ w) × ((j : ℕ) → j < n → w.active j ≡ false))
  stop_sessions_cases zero w v = inr (refl, λ j h. absurd (omega arith))
  stop_sessions_cases (suc n) w v = elim (stop_sessions_cases n w v) [
    | inl e ↦
        let same = stop_session-erased n (stop_sessions n w) e in
        inl (ap (λ (t : WebSocketServer H). t.erased_in_loop) same ∙ e)
    | inr (same, none_active) ↦ elim (Bool-cases (w.active n)) [
      | inl a ↦ inl (
          subst (λ t. (stop_session n t).erased_in_loop ≡ true) (sym same)
            (stop_session-erases n w v a))
      | inr a ↦ inr (
        ap (stop_session n) same ∙ stop_session-idle n w a,
        λ j h. elim (Bool-cases (j == n)) [
          | inl e ↦ let at : n ≡ j = ground arith in subst (λ i. w.active i ≡ false) at a
          | inr e ↦ none_active j (ground arith)
        ],
      )
    ]
  ]

  -- A connection that is not in the set is left alone.
  abbrev Spared : ℕ → WebSocketServer H → WebSocketServer H → Type 0
  Spared k w t =
      (t.active k ≡ false)
      × (t.session k ≡ w.session k)
      × (t.phase k ≡ w.phase k)
      × (t.started ≡ w.started)
      × (t.acceptor_open ≡ w.acceptor_open)
      × (t.session_handler_set ≡ w.session_handler_set)
      × (t.accepts_pending ≡ w.accepts_pending)
      × (t.made ≡ w.made)
      × (t.outcomes ≡ w.outcomes)

  pub stop_sessions-Spared :
      (n k : ℕ) (w : WebSocketServer H) → w.active k ≡ false → Spared k w (stop_sessions n w)
  stop_sessions-Spared zero k w a = (a, refl, refl, refl, refl, refl, refl, refl, refl)
  stop_sessions-Spared (suc n) k w a =
      let t = stop_sessions n w in
      let (b, s, p, st, ao, sh, ap', md, oc) = stop_sessions-Spared n k w a in
      if_cases (Spared k w) t.erased_in_loop (λ _. (b, s, p, st, ao, sh, ap', md, oc))
        (λ _.
          if_cases (Spared k w) (t.active n)
            (λ c.
              let other : (k == n) ≡ false = elim (Bool-cases (k == n)) [
                | inl e ↦
                    let at : n ≡ k = ground arith in
                    let d : t.active k ≡ true = subst (λ i. t.active i ≡ true) at c in absurd (cc)
                | inr e ↦ e
              ] in
              (ground arith, ground arith, p, st, ao, sh, ap', md, oc))
            (λ _. (b, s, p, st, ao, sh, ap', md, oc)))

  abbrev halted : WebSocketServer H → WebSocketServer H
  halted w = record w { started = false; acceptor_open = false }

  halted-ConnectionsInv : (w : WebSocketServer H) → SystemInv w → ConnectionsInv (halted w)
  halted-ConnectionsInv w v =
      same-ConnectionsInv w false false w.erased_in_loop w.session_handler_set w.accepts_pending
        v.connections

  -- Where the loop of `stop` does not change the set under itself, the listener is halted, and
  -- nothing else is different.
  pub stop-halted :
      (w : WebSocketServer H)
      → SystemInv w
      → (stop w).erased_in_loop ≡ false
      → stop w ≡ record w { started = false; acceptor_open = false }
  unfolding stop
  stop-halted w v e = elim (stop_sessions_cases w.made (halted w) (halted-ConnectionsInv w v)) [
    | inl f ↦ absurd (cc)
    | inr (same, _) ↦ same
  ]

  pub stop-SystemInv :
      (w : WebSocketServer H) → SystemInv w → (stop w).erased_in_loop ≡ false → SystemInv (stop w)
  stop-SystemInv w v e =
      subst SystemInv (sym (stop-halted w v e))
        (record { accepting = λ f. cc; connections = halted-ConnectionsInv w v })

  -- `stop` with a connection in the set, from a state that satisfies the invariant, changes the set
  -- while it is iterating over it.
  pub stop_erases :
      (w : WebSocketServer H)
      → SystemInv w
      → (k : ℕ) → w.active k ≡ true
      → (stop w).erased_in_loop ≡ true
  unfolding stop
  stop_erases w v k a =
      let c = v.connections in
      elim (stop_sessions_cases w.made (halted w) (halted-ConnectionsInv w v)) [
        | inl e ↦ e
        | inr (_, none_active) ↦
            let inside : k < w.made = ground (arith, c.members k, c.unused k) in
            let f = none_active k inside in absurd (cc)
      ]
