-- ===== src/Can/Created.antt =====
-- A CAN session from `create` on.
use transit_session.Base.{◌≡◌, some, some-if, List, subst}
use transit_session.Errors.{ErrorCode, failed}
use transit_session.Core.{Call, construct}
use transit_session.Core.Machine.{Reach}
use transit_session.Core.Invariant.{Inv, construct-Inv}
use transit_session.Core.Settled.{Settled, construct-Settled}
use transit_session.Can.{CanConfig, CanFrame}
use transit_session.Can.Abi.{LinuxCan}
use transit_session.Can.Session.{CanSession, can_state, can_machine}
use transit_session.Can.Safety.{can_session-Inv}
use transit_session.Can.Liveness.{can_session-Settled}
use transit_session.Can.Open.{Kernel, IsKernel, open_socket, create}

module _ {H : Type 0} where
  module _ (abi : LinuxCan) (config : CanConfig) where
    module _ (react : H → ErrorCode → CanFrame → List (Call CanFrame H ⊥)) where
      module _ (kernel : Kernel) (k : IsKernel kernel) where
        create-lem : (s : CanSession H) → (create kernel abi config).0 ≡ some s → Inv s × Settled s
        unfolding create can_state
        create-lem s e =
            let opening = open_socket kernel abi config (can_state abi) in
            let (ok, same) = some-if (failed opening.0) (construct opening.2) e in
            subst (λ t. Inv t × Settled t) same
              (construct-Inv opening.2, construct-Settled opening.2)

        -- Where a system call that fails reports an error: after any steps of a CAN session that
        -- `create` returned, whatever the calls, the handlers, the arrivals and the results of the
        -- writes: every read and write that was started, and has not completed, is shown by its
        -- flag, so there is at most one of each; no operation was started beside one of its kind or
        -- after the stream was closed, and it was closed at most once; every call of the read
        -- handler came directly after a read had completed; the messages whose write was started
        -- are, in order, the front of those that were accepted, and while the session is open the
        -- rest is what is queued behind the write under way; a closed session has nothing queued
        -- and does not read; the message of a write under way stays at the front of the queue while
        -- the session is open; and the events are a run of the channel of Core/Channel that ends as
        -- the session stands.
        pub created_can-Inv :
            {s t : CanSession H}
            → (create kernel abi config).0 ≡ some s
            → Reach (can_machine abi react) s t
            → Inv t
        created_can-Inv {s} e r = can_session-Inv abi react (create-lem s e).0 r

        -- Where a system call that fails reports an error: between any two steps of a CAN session
        -- that `create` returned no wake-up is lost: it is closed, or a write is under way or
        -- nothing is queued; and it is closed, or a read is under way or reading is off.
        pub created_can-Settled :
            {s t : CanSession H}
            → (create kernel abi config).0 ≡ some s
            → Reach (can_machine abi react) s t
            → Settled t
        created_can-Settled {s} e r = can_session-Settled abi react (create-lem s e).1 r
