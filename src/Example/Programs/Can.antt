-- ===== src/Example/Programs/Can.antt =====
-- `main` of example/can_benchmark.cpp.
use Prim.Native.Nat.{bit_and}
use Prim.Native.String.{String}
use transit_session.Base.{
  ℕ, ◌≡◌, ◌==◌, refl, sym, ap, ◌∙◌, Bool, true, false, Option, none, some, some-if, List, [], ◌∷◌,
  arith, subst, option_cases, if◌then◌else◌, not, ◌||◌, ◌<◌,
}
use transit_session.Base.Bits.{has_flag}
use transit_session.Errors.{failed}
use transit_session.Core.{
  construct, run_call, run_calls, schedule_operations, enqueue_write, try_read, try_write,
}
use transit_session.Core.Trace.{writes}
use transit_session.Can.{CanConfig, CanFrame, default_can_config, default_can_frame}
use transit_session.Can.Abi.{LinuxCan}
use transit_session.Can.Codec.{encode_frame, encode_id, raw_fd_frame}
use transit_session.Can.Session.{
  CanState, CanSession, can_state, can_derived, no_own, can_start_read, can_start_write, do_read,
  do_write,
}
use transit_session.Can.Open.{
  Kernel, IsKernel, RawFilter, raw_filter, raw_filters, create, open_socket,
}
use transit_session.Can.Descriptor.{open_socket_lem}
use transit_session.Example.Payload.{Host, make_frame}
use transit_session.Example.Rounds.{new_bench, send_next}
use transit_session.Example.Options.Can.{CanOptions, parse_can_options, parse_can_options_lem}
use transit_session.Example.Programs.{
  Begun, returned, running, created, ReadHandler, first_calls, first_request, created-cases, Main,
}

unfoldable pub can_benchmark_config : CanOptions → CanConfig
can_benchmark_config o = record default_can_config {
  interface_name = o.interface_name;
  enable_can_fd = o.fd_frame;
  loopback = true;
  receive_own_messages = true;
  filters =
      record { id = o.can_id; mask = 0x1FFFFFFF; extended_id = false; remote_frame = false } ∷ [];
}

-- The kernel passes a frame that one of the filters matches, under its mask; a filter whose
-- identifier has the flag CAN_INV_FILTER of linux/can.h matches the other frames.
abbrev inv_filter : ℕ
inv_filter = 0x20000000

abbrev matches : ℕ → RawFilter → Bool
matches word f =
    let same = bit_and word f.can_mask == bit_and f.can_id f.can_mask in
    if has_flag f.can_id inv_filter then not same else same

abbrev passes : ℕ → List RawFilter → Bool
passes word [] = false
passes word (f ∷ fs) = matches word f || passes word fs

abbrev pub CanMain : Type 0
CanMain = Main CanOptions CanFrame (CanSession ReadHandler)

module _ (stoull : String → Option ℕ) (host : Host) (clock : ℕ → ℕ) (kernel : Kernel)
    (abi : LinuxCan) where
  -- From the first `send_next` on.
  unfoldable pub can_running : CanOptions → CanSession ReadHandler → CanMain
  can_running o s =
      let b =
        send_next o.samples clock (λ sequence. make_frame host o.can_id sequence o.fd_frame)
          new_bench in
      record {
        options = o;
        bench = b;
        session = run_calls (can_derived abi) (no_own abi) (first_calls b.in_flight) s;
      }

  unfoldable pub begin_can_benchmark : List String → Begun CanMain
  begin_can_benchmark args = elim (parse_can_options stoull args) [
    | none ↦ returned 1
    | some o ↦ created (create kernel abi (can_benchmark_config o)) (λ s. running (can_running o s))
  ]

  -- A request is never too long, and is a CAN FD frame only where the session takes those.
  encode_frame-request :
      (o : CanOptions) (fd : Bool) (sequence : ℕ)
      → fd ≡ o.fd_frame
      → (encoded : List ℕ) × (encode_frame abi
            (can_benchmark_config o)
            (make_frame host o.can_id sequence fd)
          ≡ some encoded)
  unfolding encode_frame can_benchmark_config make_frame default_can_frame
  encode_frame-request o false sequence e = (_, refl)
  encode_frame-request o true sequence e =
      let encoded = abi.fd_bytes (raw_fd_frame abi (make_frame host o.can_id sequence true)) in
      (encoded, ap (λ b. if not b || false then none else some encoded) (sym e))

  -- A session that reads, and whose only message is being written.
  abbrev Asks : CanFrame → CanSession ReadHandler → Type 0
  Asks frame s =
      (s.closed ≡ false)
      × (s.read_in_progress ≡ true)
      × (s.write_in_progress ≡ true)
      × (writes s.trace ≡ frame ∷ [])

  first_calls-Asks :
      (d : CanState) (frame : CanFrame) (encoded : List ℕ)
      → encode_frame abi d.config frame ≡ some encoded
      → Asks frame
          (run_calls (can_derived abi) (no_own abi) (first_calls (frame ∷ [])) (construct d))
  unfolding construct run_call run_calls schedule_operations enqueue_write try_read try_write
      can_start_read can_start_write do_read do_write
  first_calls-Asks d frame encoded e =
      option_cases (λ t. Asks frame (try_read (can_derived abi) t))
        (encode_frame abi d.config frame) (λ f. absurd (cc)) (λ x f. (refl, refl, refl, refl))

  -- What `main` leaves behind, by the options that were accepted.
  abbrev pub CanBegins : Begun CanMain → Type 0
  CanBegins (returned code) = code ≡ 1
  CanBegins (running m) =
      let request = make_frame host m.options.can_id 0 m.options.fd_frame in
      (m.bench.in_flight ≡ request ∷ [])
      × (m.bench.sent_count ≡ 1)
      × Asks request m.session
      × (passes (encode_id abi request) (raw_filters abi (can_benchmark_config m.options).filters)
          ≡ not (has_flag m.options.can_id inv_filter))

  module _ (k : IsKernel kernel) where
    can_running-CanBegins :
        (o : CanOptions) (s : CanSession ReadHandler)
        → 0 < o.samples
        → (create kernel abi (can_benchmark_config o)).0 ≡ some s
        → CanBegins (running (can_running o s))
    unfolding create can_state can_running
    can_running-CanBegins o s h e =
        let config = can_benchmark_config o in
        let (ec, _, d) = open_socket kernel abi config (can_state abi) in
        let (ok, same) = some-if (failed ec) (construct d) e in
        let (_, _, _, _, kept, _) = open_socket_lem kernel k abi config (can_state abi) refl in
        let request = make_frame host o.can_id 0 o.fd_frame in
        let (encoded, f) = encode_frame-request o o.fd_frame 0 refl in
        let config_kept : d.config ≡ config = ground arith in
        let (queued, counted) =
          first_request o.samples clock (λ n. make_frame host o.can_id n o.fd_frame) h in
        (
          queued,
          counted,
          subst (λ t. Asks request (run_calls (can_derived abi) (no_own abi) (first_calls t) s))
              (sym queued)
              (subst
                (λ t.
                  Asks request
                    (run_calls (can_derived abi) (no_own abi) (first_calls (request ∷ [])) t))
                same
                (first_calls-Asks d request encoded
                  (ap (λ c. encode_frame abi c request) config_kept ∙ f))),
          unfold encode_id raw_filter make_frame can_benchmark_config default_can_frame in
              ground arith,
        )

    -- Where a system call that fails reports an error: whatever the command line, `main` of the CAN
    -- benchmark returns 1, or it comes to `run` with one request, of sequence number 0, which the
    -- open session is writing while it reads, and which the filter that was configured lets through
    -- exactly if the identifier that the options ask for has no inversion flag.
    pub begin_can_benchmark_lem : (args : List String) → CanBegins (begin_can_benchmark args)
    unfolding begin_can_benchmark parse_can_options
    begin_can_benchmark_lem args =
        option_cases CanBegins (parse_can_options stoull args) (λ _. refl)
          (λ o e.
            created-cases CanBegins (create kernel abi (can_benchmark_config o)) _ refl
              (λ s f. can_running-CanBegins o s (parse_can_options_lem stoull args o e).1 f))
