-- ===== src/Can/Open.antt =====
-- transport/can/can_session.hpp: `create`, `open` and `configure_socket`. What the system calls and
-- the descriptor of Boost.Asio answer is a parameter; `Event` is what was done to the descriptor.
use Prim.Native.String.{String}
use transit_session.Base.{
  ℕ, ◌≡◌, ◌≢◌, ◌⊎◌, inl, inr, Bool, true, Option, none, some, List, [], ◌∷◌, ◌++◌, if◌then◌else◌,
  ◌==◌, replicate,
}
use transit_session.Base.Bits.{set_flag}
use transit_session.Errors.{ErrorCode, success, device_or_resource_busy, system, failed}
use transit_session.Core.{construct}
use transit_session.Can.{CanFilter, CanConfig}
use transit_session.Can.Abi.{LinuxCan, eff_flag, rtr_flag}
use transit_session.Can.Session.{CanState, CanSession, can_state}

-- `can_filter` of linux/can.h.
pub record RawFilter : Type 0 where
  pub can_id : ℕ
  pub can_mask : ℕ

pub data SocketOption : Type 0 where
  fd_frames loopback receive_own : Bool → SocketOption
  filter : List RawFilter → SocketOption

-- The answer of a call is the errno if it fails; `assign` throws the code that it answers.
pub record Kernel : Type 0 where
  pub socket : ℕ ⊎ ℕ
  pub setsockopt : ℕ → SocketOption → Option ℕ
  pub if_nametoindex : String → ℕ
  pub index_errno : ℕ
  pub bind : ℕ → ℕ → Option ℕ
  pub assign : ℕ → Option ErrorCode

-- A call that fails sets errno to a number that is not 0, and an exception has a code that is an
-- error.
pub record IsKernel (kernel : Kernel) : Type 0 where
  pub socket_errno : (e : ℕ) → kernel.socket ≡ inr e → e ≢ 0
  pub option_errno : (fd : ℕ) (o : SocketOption) (e : ℕ) → kernel.setsockopt fd o ≡ some e → e ≢ 0
  pub index_errno : kernel.index_errno ≢ 0
  pub bind_errno : (fd i e : ℕ) → kernel.bind fd i ≡ some e → e ≢ 0
  pub assign_code : (fd : ℕ) (ec : ErrorCode) → kernel.assign fd ≡ some ec → failed ec ≡ true

pub data Event : Type 0 where
  opened closed assigned : ℕ → Event
  option_set : ℕ → SocketOption → Event
  bound : ℕ → ℕ → Event

unfoldable pub raw_filter : LinuxCan → CanFilter → RawFilter
raw_filter abi f = record {
  can_id = set_flag f.remote_frame (rtr_flag abi) (set_flag f.extended_id (eff_flag abi) f.id);
  can_mask = set_flag f.remote_frame (rtr_flag abi) (set_flag f.extended_id (eff_flag abi) f.mask);
}

abbrev pub raw_filters : LinuxCan → List CanFilter → List RawFilter
raw_filters abi [] = []
raw_filters abi (f ∷ fs) = raw_filter abi f ∷ raw_filters abi fs

-- The options that `configure_socket` sets, in its order.
abbrev pub socket_options : LinuxCan → CanConfig → List SocketOption
socket_options abi config =
    (if config.enable_can_fd then fd_frames true ∷ [] else [])
    ++ loopback config.loopback
      ∷ receive_own config.receive_own_messages
      ∷ elim config.filters [ [] ↦ [] | f ∷ fs ↦ filter (raw_filters abi (f ∷ fs)) ∷ [] ]

module _ (kernel : Kernel) where
  -- One option after the other, up to the first error.
  abbrev pub set_in_turn : ℕ → List SocketOption → ErrorCode × List Event
  set_in_turn fd [] = (success, [])
  set_in_turn fd (o ∷ os) =
      let (ec, rest) = set_in_turn fd os in
      elim (kernel.setsockopt fd o) [
        | some e ↦ (system e, [])
        | none ↦ (ec, option_set fd o ∷ rest)
      ]

  module _ (abi : LinuxCan) (config : CanConfig) where
    unfoldable pub configure_socket : ℕ → ErrorCode × List Event
    configure_socket fd = set_in_turn fd (socket_options abi config)

    -- `open` from the descriptor on: the code, what was done, and the state.
    abbrev pub open_descriptor : ℕ → CanState → ErrorCode × List Event × CanState
    open_descriptor fd d =
        let (ec, set) = configure_socket fd in
        let index = kernel.if_nametoindex config.interface_name in
        let before = opened fd ∷ set in
        if failed ec
        then (ec, before ++ closed fd ∷ [], d)
        else (if index == 0
            then (system kernel.index_errno, before ++ closed fd ∷ [], d)
            else elim (kernel.bind fd index) [
              | some e ↦ (system e, before ++ closed fd ∷ [], d)
              | none ↦ elim (kernel.assign fd) [
                | some code ↦ (code, before ++ bound fd index ∷ closed fd ∷ [], d)
                | none ↦ (
                  success,
                  before ++ bound fd index ∷ assigned fd ∷ [],
                  record d {
                    socket_open = true;
                    config = config;
                    read_buffer = replicate abi.fd_size 0;
                  },
                )
              ]
            ])

    unfoldable pub open_socket : CanState → ErrorCode × List Event × CanState
    open_socket d =
        if d.socket_open
        then (device_or_resource_busy, [], d)
        else elim kernel.socket [ inr e ↦ (system e, [], d) | inl fd ↦ open_descriptor fd d ]

    -- `open` of a session, on its descriptor.
    abbrev pub open_can_session : {H : Type 0} → CanSession H → ErrorCode × CanSession H
    open_can_session s = let (ec, _, d) = open_socket s.own in (ec, record s { own = d })

    -- The pointer that is returned, and the code.
    unfoldable pub create : {H : Type 0} → Option (CanSession H) × ErrorCode
    create =
        let (ec, _, d) = open_socket (can_state abi) in
        (if failed ec then none else some (construct d), ec)
