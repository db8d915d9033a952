-- ===== src/Can/Reopened.antt =====
-- A CAN session that is opened again: `open` of transport/can/can_session.hpp is public, and can be
-- called at any time.
use transit_session.Base.{
  Bool, true, Option, none, ap, sym, ◌||◌, ◌⊎◌, inl, inr, Bool-cases, if◌then◌else◌, ◌≡◌, refl,
  false, not, some, some-if, List, arith, subst, if_cases, option_cases, length,
}
use transit_session.Errors.{ErrorCode, failed}
use transit_session.Core.{Call, construct, close_session, notify_read}
use transit_session.Core.Arrival.{fill}
use transit_session.Core.Preserve.{Preserves, schedule_operations-Preserves, notify_read-Preserves}
use transit_session.Core.Machine.{Step, Step-Keeps, Keeps}
use transit_session.Core.Invariant.{current_cases}
use transit_session.Can.{CanConfig, CanFrame}
use transit_session.Can.Abi.{LinuxCan}
use transit_session.Can.Codec.{encode_frame, decode_frame}
use transit_session.Can.Session.{
  CanState, CanSession, can_state, can_derived, no_own, can_machine, do_read, do_write,
  close_transport, fail_read, read_completed, write_completed,
}
use transit_session.Can.Open.{Kernel, IsKernel, Event, open_socket, open_can_session, create}
use transit_session.Can.Descriptor.{open_socket_lem}

abbrev pub is_some : Option CanConfig → Bool
is_some none = false
is_some (some _) = true

abbrev pub latest : CanConfig → Option CanConfig → CanConfig
latest config none = config
latest config (some c) = c

module _ {H : Type 0} where
  -- The steps of a session and calls of `open`, with the configuration of the last one that
  -- succeeded.
  pub data CanLife (abi : LinuxCan) (react : H → ErrorCode → CanFrame → List (Call CanFrame H ⊥))
      (s : CanSession H) : Option CanConfig → CanSession H → Type 0 where
    here : CanLife abi react s none s
    next :
        {o : Option CanConfig} {t u : CanSession H}
        → CanLife abi react s o t
        → Step (can_machine abi react) t u
        → CanLife abi react s o u
    opens :
        {o : Option CanConfig} {t : CanSession H} (kernel : Kernel) (config : CanConfig)
        → IsKernel kernel
        → CanLife abi react s o t
        → CanLife abi react s
            (if failed (open_can_session kernel abi config t).0 then o else some config)
            (open_can_session kernel abi config t).1

  -- The descriptor is open exactly while the session is or after it was opened again, which only a
  -- closed session can be, and the configuration is the latest.
  abbrev Wired : CanConfig → Option CanConfig → CanSession H → Type 0
  Wired config o s =
      (s.own.socket_open ≡ (not s.closed || is_some o))
      × (s.own.config ≡ latest config o)
      × ((o ≡ none) ⊎ (s.closed ≡ true))

  module _ (abi : LinuxCan) (config : CanConfig) (o : Option CanConfig) where
    close-Wired :
        (s : CanSession H) → Wired config o s → Wired config o (close_session close_transport s)
    unfolding close_session close_transport
    close-Wired s p =
        if_cases (Wired config o) s.closed (λ _. p)
          (λ e.
            (elim p.2 [ inl n ↦ ap (λ q. is_some q) (sym n) | inr c ↦ absurd (cc) ], p.1, inr refl))

    can_derived-Wired : Preserves (can_derived {H = H} abi) (Wired config o)
    unfolding do_read do_write
    can_derived-Wired = record {
      do_read = λ s p _. (p.0, p.1, p.2);
      do_write = λ s p _.
          current_cases (Wired config o) s.write_queue (λ _. p)
            (λ w q e.
              option_cases (Wired config o) (encode_frame abi s.own.config w) (λ _. close-Wired s p)
                (λ _ _. (p.0, p.1, p.2)));
      close = close-Wired;
      accept = λ s w p _. (p.0, p.1, p.2);
      enable = λ s p _. (p.0, p.1, p.2);
      disable = λ s p. (p.0, p.1, p.2);
      handle = λ s h p. (p.0, p.1, p.2);
    }

    module _ (react : H → ErrorCode → CanFrame → List (Call CanFrame H ⊥)) where
      notified-Wired :
          (ec : ErrorCode) (f : CanFrame) (s : CanSession H)
          → Wired config o s
          → Wired config o (notify_read (can_derived abi) (no_own abi) react ec f s)
      notified-Wired ec f s p =
          notify_read-Preserves can_derived-Wired (λ x s p. p) react ec f s p (p.0, p.1, p.2)

      failed-Wired :
          (ec : ErrorCode) (s : CanSession H)
          → Wired config o s
          → Wired config o (fail_read abi react ec s)
      unfolding fail_read
      failed-Wired ec s p = close-Wired _ (notified-Wired ec _ s p)

      can_machine-Wired : Keeps (can_machine abi react) (Wired config o)
      unfolding read_completed write_completed
      can_machine-Wired = record {
        base = can_derived-Wired;
        own = λ x s p. p;
        read = λ a s p _ _.
            if_cases (Wired config o) (failed a.ec) (λ _. failed-Wired a.ec _ (p.0, p.1, p.2))
              (λ _.
                if_cases (Wired config o)
                  (failed
                    (decode_frame abi (length a.bytes) (fill a.bytes s.own.read_buffer)
                      s.own.last_read_frame).0)
                  (λ _. failed-Wired _ _ (p.0, p.1, p.2))
                  (λ _.
                    schedule_operations-Preserves can_derived-Wired _
                      (notified-Wired _ _ _ (p.0, p.1, p.2))));
        write = λ ec s p _.
            if_cases (Wired config o) (failed ec) (λ _. close-Wired _ (p.0, p.1, p.2))
              (λ _. schedule_operations-Preserves can_derived-Wired _ (p.0, p.1, p.2));
      }

    module _ (kernel : Kernel) (k : IsKernel kernel) (again : CanConfig) (s : CanSession H)
        (p : Wired config o s) where
      abbrev Reopened : ErrorCode × List Event × CanState → Type 0
      Reopened (ec, es, d) =
          Wired config (if failed ec then o else some again) (record s { own = d })

      -- An open descriptor is busy.
      busy : s.own.socket_open ≡ true → Reopened (open_socket kernel abi again s.own)
      unfolding open_socket
      busy e = if_cases Reopened s.own.socket_open (λ _. p) (λ f. absurd (cc))

      free : s.own.socket_open ≡ false → Reopened (open_socket kernel abi again s.own)
      free e =
          let r = open_socket kernel abi again s.own in
          let (_, _, _, is_open, kept, _) = open_socket_lem kernel k abi again s.own e in
          let f : s.closed ≡ true = ground (arith, p.0) in
          let n : is_some o ≡ false = ground (arith, p.0) in
          elim (Bool-cases (failed r.0)) [ inl g ↦ ground arith | inr g ↦ ground arith ]

      pub open_can_session-Wired : Reopened (open_socket kernel abi again s.own)
      open_can_session-Wired = elim (Bool-cases s.own.socket_open) [
        | inl e ↦ busy e
        | inr e ↦ free e
      ]

  module _ (abi : LinuxCan) (config : CanConfig)
      (react : H → ErrorCode → CanFrame → List (Call CanFrame H ⊥)) where
    CanLife-Wired :
        {s t : CanSession H} {o : Option CanConfig}
        → Wired config none s
        → CanLife abi react s o t
        → Wired config o t
    CanLife-Wired p here = p
    CanLife-Wired p (next {o} l st) =
        Step-Keeps (can_machine-Wired abi config o react) st (CanLife-Wired p l)
    CanLife-Wired p (opens {o} {t} kernel again k l) =
        open_can_session-Wired abi config o kernel k again t (CanLife-Wired p l)

    module _ (kernel : Kernel) (k : IsKernel kernel) where
      create-Wired :
          (s : CanSession H) → (create kernel abi config).0 ≡ some s → Wired config none s
      unfolding create can_state
      create-Wired s e =
          let opening = open_socket kernel abi config (can_state abi) in
          let (ok, same) = some-if (failed opening.0) (construct opening.2) e in
          let good = open_socket_lem kernel k abi config (can_state abi) fresh in
          subst (Wired config none) same (unfold construct in ground (arith, good))
        where
          fresh : (can_state abi).socket_open ≡ false
          fresh = refl

      -- Where a system call that fails reports an error: after any steps of a CAN session that
      -- `create` returned and any calls of `open`, the descriptor is open exactly while the session
      -- is not closed or after a call of `open` has succeeded; the configuration is that of the
      -- last such call, or else that of `create`; and no call has succeeded or the session is
      -- closed.
      pub created_can-Wired :
          {s t : CanSession H} {o : Option CanConfig}
          → (create kernel abi config).0 ≡ some s
          → CanLife abi react s o t
          → (t.own.socket_open ≡ (not t.closed || is_some o))
            × (t.own.config ≡ latest config o)
            × ((o ≡ none) ⊎ (t.closed ≡ true))
      created_can-Wired {s} e l = CanLife-Wired (create-Wired s e) l
