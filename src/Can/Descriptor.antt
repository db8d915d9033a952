-- ===== src/Can/Descriptor.antt =====
-- The descriptor that `open` of transport/can/can_session.hpp takes, on every path.
use transit_session.Base.{
  ℕ, ◌≤◌, length, ◌≡◌, refl, ap, inl, inr, ◌⊎◌, Bool, sym, subst, true, false, not, none, some,
  List, [], ◌∷◌, ◌++◌, arith, bit, if◌then◌else◌, option_cases, sum_cases, if_cases, ◌==◌,
}
use transit_session.Errors.{ErrorCode, system, failed}
use transit_session.Can.{CanConfig}
use transit_session.Can.Abi.{LinuxCan}
use transit_session.Can.Session.{CanState}
use transit_session.Can.Open.{
  Kernel, IsKernel, Event, opened, closed, assigned, option_set, bound, SocketOption, set_in_turn,
  socket_options, RawFilter, filter, fd_frames, loopback, receive_own, raw_filters,
  configure_socket, open_descriptor, open_socket,
}

-- The descriptors that were taken from the system, and those that were given back to it.
abbrev pub takings : List Event → List ℕ
takings [] = []
takings (opened fd ∷ es) = fd ∷ takings es
takings (_ ∷ es) = takings es

abbrev pub returns : List Event → List ℕ
returns [] = []
returns (closed fd ∷ es) = fd ∷ returns es
returns (_ ∷ es) = returns es

abbrev pub handovers : List Event → List ℕ
handovers [] = []
handovers (assigned fd ∷ es) = fd ∷ handovers es
handovers (_ ∷ es) = handovers es

-- The options that were set, in order.
abbrev pub options_set : List Event → List SocketOption
options_set [] = []
options_set (option_set _ o ∷ es) = o ∷ options_set es
options_set (_ ∷ es) = options_set es

-- What the options say of one matter.
abbrev pub fd_frames_of : List SocketOption → List Bool
fd_frames_of [] = []
fd_frames_of (fd_frames b ∷ os) = b ∷ fd_frames_of os
fd_frames_of (_ ∷ os) = fd_frames_of os

abbrev pub loopback_of : List SocketOption → List Bool
loopback_of [] = []
loopback_of (loopback b ∷ os) = b ∷ loopback_of os
loopback_of (_ ∷ os) = loopback_of os

abbrev pub receive_own_of : List SocketOption → List Bool
receive_own_of [] = []
receive_own_of (receive_own b ∷ os) = b ∷ receive_own_of os
receive_own_of (_ ∷ os) = receive_own_of os

abbrev pub filters_of : List SocketOption → List (List RawFilter)
filters_of [] = []
filters_of (filter fs ∷ os) = fs ∷ filters_of os
filters_of (_ ∷ os) = filters_of os

-- The options turn CAN FD on where it is enabled, loopback and own messages as configured, and give
-- all filters at once, if there are any.
abbrev AsConfigured : LinuxCan → CanConfig → List SocketOption → Type 0
AsConfigured abi config os =
    (fd_frames_of os ≡ (if config.enable_can_fd then true ∷ [] else []))
    × (loopback_of os ≡ config.loopback ∷ [])
    × (receive_own_of os ≡ config.receive_own_messages ∷ [])
    × (filters_of os
        ≡ (if length config.filters == 0 then [] else raw_filters abi config.filters ∷ []))

socket_options-AsConfigured :
    (abi : LinuxCan) (config : CanConfig) → AsConfigured abi config (socket_options abi config)
socket_options-AsConfigured abi config = ground arith

module _ (kernel : Kernel) (k : IsKernel kernel) where
  abbrev Quiet : List Event → List Event → Type 0
  Quiet set rest =
      (takings (set ++ rest) ≡ takings rest)
      × (returns (set ++ rest) ≡ returns rest)
      × (handovers (set ++ rest) ≡ handovers rest)

  -- Setting options takes and returns no descriptor.
  set_in_turn-Quiet :
      (fd : ℕ) (os : List SocketOption) (rest : List Event)
      → Quiet (set_in_turn kernel fd os).1 rest
  set_in_turn-Quiet fd [] rest = (refl, refl, refl)
  set_in_turn-Quiet fd (o ∷ os) rest =
      elim (kernel.setsockopt fd o)
        as (λ a.
          Quiet
            (elim a as (λ _. ErrorCode × List Event) [
              | some e ↦ (system e, [])
              | none ↦
                  ((set_in_turn kernel fd os).0, option_set fd o ∷ (set_in_turn kernel fd os).1)
            ]).1
            rest) [ some e ↦ (refl, refl, refl) | none ↦ set_in_turn-Quiet fd os rest ]

  -- Either an option is refused, or all are set.
  set_in_turn-all :
      (fd : ℕ) (os : List SocketOption) (rest : List Event)
      → let (ec, set) = set_in_turn kernel fd os in
        (failed ec ≡ true) ⊎ (options_set (set ++ rest) ≡ os ++ options_set rest)
  set_in_turn-all fd [] rest = inr refl
  set_in_turn-all fd (o ∷ os) rest =
      option_cases
        (λ (r : ErrorCode × List Event).
          (failed r.0 ≡ true) ⊎ (options_set (r.1 ++ rest) ≡ o ∷ (os ++ options_set rest)))
        (kernel.setsockopt fd o)
        (λ _. elim (set_in_turn-all fd os rest) [ inl f ↦ inl f | inr e ↦ inr (ap (◌∷◌ o) e) ])
        (λ e h. inl (ground (arith, k.option_errno fd o e h)))

  module _ (abi : LinuxCan) (config : CanConfig) where
    -- What is claimed of the three results of `open`.
    abbrev Owned : CanState → ErrorCode × List Event × CanState → Type 0
    Owned d (ec, es, e) =
        (takings es ≡ returns es ++ handovers es)
        × (length (takings es) ≤ 1)
        × (length (handovers es) ≡ bit (not (failed ec)))
        × (e.socket_open ≡ not (failed ec))
        × (e.config ≡ (if failed ec then d.config else config))
        × ((failed ec ≡ true) ⊎ (options_set es ≡ socket_options abi config))

    open_descriptor-Owned :
        (fd : ℕ) (d : CanState)
        → d.socket_open ≡ false
        → Owned d (open_descriptor kernel abi config fd d)
    unfolding configure_socket
    open_descriptor-Owned fd d h =
        if_cases (Owned d) (failed set.0) (λ f. given_back set.0 f)
          (λ f.
            if_cases (Owned d) (index == 0)
              (λ _. given_back (system kernel.index_errno) (ground (arith, k.index_errno)))
              (λ _.
                option_cases (Owned d) (kernel.bind fd index)
                  (λ _.
                    option_cases (Owned d) (kernel.assign fd)
                      (λ _. ground (
                        arith,
                        set_in_turn-Quiet fd options (bound fd index ∷ assigned fd ∷ []),
                        set_in_turn-all fd options (bound fd index ∷ assigned fd ∷ []),
                      ))
                      (λ code e. ground (
                        arith,
                        k.assign_code fd code e,
                        set_in_turn-Quiet fd options (bound fd index ∷ closed fd ∷ []),
                      )))
                  (λ e b. given_back (system e) (ground (arith, k.bind_errno fd index e b)))))
      where
        options : List SocketOption
        options = socket_options abi config

        index : ℕ
        index = kernel.if_nametoindex config.interface_name

        set : ErrorCode × List Event
        set = set_in_turn kernel fd options

        given_back :
            (ec : ErrorCode)
            → failed ec ≡ true
            → Owned d (ec, opened fd ∷ set.1 ++ closed fd ∷ [], d)
        given_back ec f = ground (arith, set_in_turn-Quiet fd options (closed fd ∷ []))

    open_socket-Owned :
        (d : CanState) → d.socket_open ≡ false → Owned d (open_socket kernel abi config d)
    unfolding open_socket
    open_socket-Owned d h =
        if_cases (Owned d) d.socket_open (λ e. absurd (ground arith))
          (λ _.
            sum_cases (Owned d) kernel.socket (λ fd _. open_descriptor-Owned fd d h)
              (λ e s. ground (arith, k.socket_errno e s)))

    -- `open` of a closed session, where a call that fails reports an error, takes at most one
    -- descriptor from the system; on an error the descriptor that was taken is given back, the
    -- session stays closed and its configuration as it was; on success the descriptor is handed to
    -- the session, which is open with the new configuration. Either an error is reported, or CAN FD
    -- was turned on exactly if the configuration enables it, loopback and the reception of own
    -- messages were set once each, as configured, and all filters were set at once if there are
    -- any, and none otherwise.
    pub open_socket_lem :
        (d : CanState)
        → d.socket_open ≡ false
        → let (ec, es, e) = open_socket kernel abi config d in
          (takings es ≡ returns es ++ handovers es)
          × (length (takings es) ≤ 1)
          × (length (handovers es) ≡ bit (not (failed ec)))
          × (e.socket_open ≡ not (failed ec))
          × (e.config ≡ (if failed ec then d.config else config))
          × ((failed ec ≡ true)
              ⊎ ((fd_frames_of (options_set es) ≡ (if config.enable_can_fd then true ∷ [] else []))
                  × (loopback_of (options_set es) ≡ config.loopback ∷ [])
                  × (receive_own_of (options_set es) ≡ config.receive_own_messages ∷ [])
                  × (filters_of (options_set es) ≡ (
                      if length config.filters == 0
                      then []
                      else raw_filters abi config.filters ∷ []))))
    open_socket_lem d h =
        let (a, b, c, o, e, set) = open_socket-Owned d h in
        (
          a,
          b,
          c,
          o,
          e,
          elim set [
            | inl f ↦ inl f
            | inr all ↦
                inr (
                  subst (AsConfigured abi config) (sym all)
                    (socket_options-AsConfigured abi config))
          ],
        )
