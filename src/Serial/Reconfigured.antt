-- ===== src/Serial/Reconfigured.antt =====
-- A serial session that is configured or opened again: `open` and `apply_config` of
-- transport/serial/serial_session.hpp are public, and can be called at any time.
use transit_session.Base.{
  ◌≢◌, ◌∙◌, ap, [], ◌∷◌, ◌++◌, ◌≡◌, sym, ◌⊎◌, inl, inr, Bool, true, false, some, List, arith, subst,
  if_cases, length,
}
use transit_session.Errors.{ErrorCode, failed}
use transit_session.Core.{Call, send, run_call, log, accepted}
use transit_session.Core.Machine.{Step, Step-Keeps}
use transit_session.Core.Ended.{assign-Inv}
use transit_session.Serial.{full_duplex, half_duplex, SerialPortConfig, is_half}
use transit_session.Serial.Session.{
  Bytes, SerialSession, SerialCall, serial_derived, run_serial_call, serial_machine,
}
use transit_session.Serial.Invariant.{SerialInv}
use transit_session.Serial.Safety.{serial_machine-Keeps}
use transit_session.Serial.Liveness.{SerialSettled, Step-SerialSettled}
use transit_session.Serial.Open.{
  Port, configured, apply_config, open_port, create, apply_config_cases, configured-SerialInv,
}
use transit_session.Serial.Delivery.{send_waits}
use transit_session.Serial.Created.{flagged, create-Idle}

append-nonempty : {A : Type 0} (xs : List A) (x : A) → (xs ++ x ∷ []) ≢ []
append-nonempty [] x e = cc
append-nonempty (y ∷ xs) x e = cc

module _ {H : Type 0} where
  -- The duplex mode stays, and a read under way keeps its buffer.
  abbrev pub IsGentle : SerialPortConfig → SerialSession H → Type 0
  IsGentle config s =
      (is_half config.duplex_mode ≡ is_half s.own.duplex_mode)
      × ((s.read_in_progress ≡ false) ⊎ (length s.own.read_buffer ≡ config.read_buffer_size))

  -- The steps of a session, and calls of `apply_config` and `open` that are gentle.
  pub data SerialLife (react : H → ErrorCode → Bytes → List (Call Bytes H SerialCall))
      (s : SerialSession H) : SerialSession H → Type 0 where
    here : SerialLife react s s
    next :
        {t u : SerialSession H}
        → SerialLife react s t
        → Step (serial_machine react) t u
        → SerialLife react s u
    applies :
        {t : SerialSession H} (port : Port) (config : SerialPortConfig)
        → IsGentle config t
        → SerialLife react s t
        → SerialLife react s (apply_config port config t).1
    opens :
        {t : SerialSession H} (port : Port) (config : SerialPortConfig)
        → IsGentle config t
        → SerialLife react s t
        → SerialLife react s (open_port port config t).1

  abbrev Good : SerialSession H → Type 0
  Good s = SerialInv s × SerialSettled s

  flagged-Good : (b : Bool) (s : SerialSession H) → Good s → Good (flagged b s)
  flagged-Good b s (v, w) = (
    record {
      base = assign-Inv s v.base s.read_handler s.read_enabled _ v.base.disabled;
      mode = v.mode;
      exclusive = v.exclusive;
      unpaused = v.unpaused;
      room = v.room;
    },
    record { sending = w.sending; reading = w.reading },
  )

  module _ (port : Port) (config : SerialPortConfig) where
    configured-SerialSettled :
        (s : SerialSession H)
        → is_half config.duplex_mode ≡ is_half s.own.duplex_mode
        → SerialSettled s
        → SerialSettled (configured port config s)
    configured-SerialSettled s h w = record {
      sending = ground (arith, w.sending);
      reading = ground (arith, w.reading);
    }

    apply_config-Good :
        (s : SerialSession H)
        → is_half config.duplex_mode ≡ is_half s.own.duplex_mode
        → Good s
        → Good (apply_config port config s).1
    apply_config-Good s h (v, w) = elim (apply_config_cases port config s) [
      | inl (ec, f, e) ↦ subst (λ r. Good r.1) (sym e) (v, w)
      | inr (n, e) ↦
          subst (λ r. Good r.1) (sym e)
            (configured-SerialInv port config s v n, configured-SerialSettled s h w)
    ]

    open_port-Good :
        (s : SerialSession H)
        → is_half config.duplex_mode ≡ is_half s.own.duplex_mode
        → Good s
        → Good (open_port port config s).1
    unfolding open_port
    open_port-Good s h g =
        if_cases (λ (r : ErrorCode × SerialSession H). Good r.1)
          (failed (port.open_answer config.device_path)) (λ _. g)
          (λ _.
            if_cases Good (failed (apply_config port config (flagged true s)).0)
              (λ _. flagged-Good false _ applied) (λ _. applied))
      where
        applied : Good (apply_config port config (flagged true s)).1
        applied = apply_config-Good (flagged true s) h (flagged-Good true s g)

  module _ (react : H → ErrorCode → Bytes → List (Call Bytes H SerialCall)) where
    SerialLife-Good : {s t : SerialSession H} → Good s → SerialLife react s t → Good t
    SerialLife-Good g here = g
    SerialLife-Good g (next l st) =
        let (v, w) = SerialLife-Good g l in
        (Step-Keeps (serial_machine-Keeps react) st v, Step-SerialSettled react st v w)
    SerialLife-Good g (applies {t} port config h l) =
        apply_config-Good port config t h.0 (SerialLife-Good g l)
    SerialLife-Good g (opens {t} port config h l) =
        open_port-Good port config t h.0 (SerialLife-Good g l)

    -- After any steps of a serial session that `create` returned, and any calls of `apply_config`
    -- and `open` whose configuration has the duplex mode that the session is in, and which leave
    -- the buffer of a read under way at its size, no wake-up is lost: it is closed, or a write is
    -- under way or nothing is queued, or in half-duplex a read is under way; and it is closed, or a
    -- read is under way or reading is off, or in half-duplex a write is under way.
    pub created-SerialSettled :
        (port : Port) (config : SerialPortConfig) {s t : SerialSession H}
        → (create port config).0 ≡ some s
        → SerialLife react s t
        → SerialSettled t
    created-SerialSettled port config {s} e l =
        let (v, q, d) = create-Idle port config s e in
        let w : SerialSettled s = record {
          sending = inr (inr (inl q));
          reading = inr (inr (inl d));
        } in
        (SerialLife-Good (v, w) l).1

  Sleeping : SerialSession H → Type 0
  Sleeping t =
      (t.closed ≡ false)
      × (t.own.duplex_mode ≡ full_duplex)
      × (t.write_queue ≢ [])
      × (t.write_in_progress ≡ false)

  Sleeping-not-SerialSettled : (t : SerialSession H) → Sleeping t → ¬ SerialSettled t
  unfolding Sleeping
  Sleeping-not-SerialSettled t (c, m, q, p) w = elim w.sending [
    | inl e ↦ absurd (cc)
    | inr (inl e) ↦ absurd (cc)
    | inr (inr (inl e)) ↦ q e
    | inr (inr (inr (h, _))) ↦
        let f : is_half full_duplex ≡ true = subst (λ d. is_half d ≡ true) m h in absurd (cc)
  ]

  -- An open session in half-duplex that satisfies the invariant, with a read under way and no
  -- write, is sent a message, and `apply_config` with a full-duplex configuration then reports no
  -- error: the session is open and in full-duplex with a message in its queue and no write under
  -- way, so that a wake-up was lost.
  pub send-apply_config :
      (w : Bytes) (s : SerialSession H) (port : Port) (config : SerialPortConfig)
      → SerialInv s
      → s.own.duplex_mode ≡ half_duplex
      → s.read_in_progress ≡ true
      → s.write_in_progress ≡ false
      → s.closed ≡ false
      → config.duplex_mode ≡ full_duplex
      → failed (apply_config port config (run_call serial_derived run_serial_call (send w) s)).0
        ≡ false
      → let (ec, t) =
          apply_config port config (run_call serial_derived run_serial_call (send w) s) in
        (t.closed ≡ false)
        × (t.own.duplex_mode ≡ full_duplex)
        × (t.write_queue ≢ [])
        × (t.write_in_progress ≡ false)
        × (¬ SerialSettled t)
  unfolding Sleeping
  send-apply_config w s port config v m r n c f ok =
      let u = run_call serial_derived run_serial_call (send w) s in
      let queued : SerialSession H =
        log (accepted w) (record s { write_queue = s.write_queue ++ w ∷ [] }) in
      let after : SerialSession H = (apply_config port config u).1 in
      let done : after ≡ configured port config u = elim (apply_config_cases port config u) [
        | inl (ec, g, e) ↦
            let same = ap (λ (x : ErrorCode × SerialSession H). failed x.0) e in absurd (cc)
        | inr (_, e) ↦ ap (λ (x : ErrorCode × SerialSession H). x.1) e
      ] in
      let waits : after ≡ configured port config queued =
        done ∙ ap (configured port config) (send_waits w s v m r c) in
      let sleeping : Sleeping after =
        subst Sleeping (sym waits) (c, f, append-nonempty s.write_queue w, n) in
      let (a, b, d, e) = sleeping in (a, b, d, e, Sleeping-not-SerialSettled after sleeping)
