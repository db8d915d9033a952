-- ===== src/Serial/Created.antt =====
-- A serial session from `create` on: the invariants hold of it through its whole life.
use transit_session.Base.{
  some-if, ℕ, ◌≡◌, refl, sym, inl, inr, Bool, true, false, some, List, [], arith, subst, if_cases,
  length-replicate,
}
use transit_session.Errors.{ErrorCode, failed}
use transit_session.Core.{Call, construct}
use transit_session.Core.Machine.{Reach}
use transit_session.Core.Invariant.{construct-Inv}
use transit_session.Core.Ended.{assign-Inv}
use transit_session.Serial.{SerialPortConfig, serial_state}
use transit_session.Serial.Session.{Bytes, SerialSession, SerialCall, serial_machine}
use transit_session.Serial.Invariant.{SerialInv}
use transit_session.Serial.Safety.{serial_session-SerialInv}
use transit_session.Serial.Open.{
  Port, apply_config, open_port, create, apply_config_cases, configured-SerialInv,
}

module _ {H : Type 0} where
  -- A session that has done nothing yet.
  abbrev pub Idle : SerialSession H → Type 0
  Idle s = SerialInv s × (s.write_queue ≡ []) × (s.read_enabled ≡ false)

  abbrev pub flagged : Bool → SerialSession H → SerialSession H
  flagged b s = record s { own = record (s.own) { port_open = b } }

  flagged-Idle : (b : Bool) (s : SerialSession H) → Idle s → Idle (flagged b s)
  flagged-Idle b s (v, q, e) = (
    record {
      base = assign-Inv s v.base s.read_handler s.read_enabled _ v.base.disabled;
      mode = v.mode;
      exclusive = v.exclusive;
      unpaused = v.unpaused;
      room = v.room;
    },
    q,
    e,
  )

  construct-Idle : Idle (construct serial_state)
  unfolding construct serial_state
  construct-Idle = (
    record {
      base = construct-Inv serial_state;
      mode = refl;
      exclusive = tt;
      unpaused = refl;
      room = omega (arith, length-replicate {0} {A = ℕ} 1024 0);
    },
    refl,
    refl,
  )

  module _ (port : Port) (config : SerialPortConfig) where
    apply_config-Idle : (s : SerialSession H) → Idle s → Idle (apply_config port config s).1
    apply_config-Idle s (v, q, d) = elim (apply_config_cases port config s) [
      | inl (ec, f, e) ↦ subst (λ r. Idle r.1) (sym e) (v, q, d)
      | inr (h, e) ↦ subst (λ r. Idle r.1) (sym e) (configured-SerialInv port config s v h, q, d)
    ]

    open_port-Idle : (s : SerialSession H) → Idle s → Idle (open_port port config s).1
    unfolding open_port
    open_port-Idle s i =
        if_cases (λ (r : ErrorCode × SerialSession H). Idle r.1)
          (failed (port.open_answer config.device_path)) (λ _. i)
          (λ _.
            if_cases Idle (failed (apply_config port config (flagged true s)).0)
              (λ _. flagged-Idle false _ configured_s) (λ _. configured_s))
      where
        configured_s : Idle (apply_config port config (flagged true s)).1
        configured_s = apply_config-Idle (flagged true s) (flagged-Idle true s i)

    pub create-Idle : (s : SerialSession H) → (create port config).0 ≡ some s → Idle s
    unfolding create
    create-Idle s e =
        subst Idle ((some-if (failed opened.0) opened.1 e).1)
          (open_port-Idle (construct serial_state) construct-Idle)
      where
        opened : ErrorCode × SerialSession H
        opened = open_port port config (construct serial_state)

    module _ (react : H → ErrorCode → Bytes → List (Call Bytes H SerialCall)) where
      -- After any steps of a serial session that `create` returned, whatever the calls, the
      -- handlers, the arrivals and the results of the writes: every read and write that was
      -- started, and has not completed, is shown by its flag, so there is at most one of each; no
      -- operation was started beside one of its kind or after the stream was closed, and it was
      -- closed at most once; every call of the read handler came directly after a read had
      -- completed; the messages whose write was started are, in order, the front of those that were
      -- accepted, and while the session is open the rest is what is queued behind the write under
      -- way; a closed session has nothing queued and does not read; the message of a write under
      -- way stays at the front of the queue while the session is open; and the events are a run of
      -- the channel of Core/Channel that ends as the session stands. While half-duplex was on, no
      -- write was started beside a read, and no read beside a write; the pause of a read for a
      -- write was never asked for; and the read buffer is not empty.
      pub created-SerialInv :
          {s t : SerialSession H}
          → (create port config).0 ≡ some s
          → Reach (serial_machine react) s t
          → SerialInv t
      created-SerialInv {s} e r = serial_session-SerialInv react (create-Idle s e).0 r
