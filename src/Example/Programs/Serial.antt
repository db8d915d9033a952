-- ===== src/Example/Programs/Serial.antt =====
-- `main` of example/serial_benchmark.cpp.
use Prim.Native.String.{String}
use transit_session.Base.{
  ℕ, ◌<◌, ◌≡◌, ◌⊎◌, refl, sym, ap, ◌∙◌, inl, inr, true, false, Option, none, some, some-if, List,
  [], ◌∷◌, subst, if_cases, option_cases, if◌then◌else◌, length,
}
use transit_session.Errors.{ErrorCode, success, failed}
use transit_session.Core.{
  construct, run_call, run_calls, schedule_operations, enqueue_write, try_read, try_write,
}
use transit_session.Core.Trace.{writes}
use transit_session.Serial.{SerialPortConfig, default_serial_config, full_duplex, serial_state}
use transit_session.Serial.Session.{
  SerialSession, serial_derived, run_serial_call, can_start_read, can_start_write, do_read,
  do_write,
}
use transit_session.Serial.Safety.{length-resize}
use transit_session.Serial.Open.{Port, create, open_port, apply_config_cases, configured}
use transit_session.Example.Payload.{Host, make_payload}
use transit_session.Example.Rounds.{new_bench, send_next}
use transit_session.Example.Options.Serial.{
  SerialOptions, parse_serial_options, parse_serial_options_lem,
}
use transit_session.Example.Programs.{
  Begun, returned, running, created, ReadHandler, first_calls, first_request, created-cases, Main,
}

unfoldable pub serial_benchmark_config : SerialOptions → SerialPortConfig
serial_benchmark_config o = record default_serial_config {
  device_path = o.device_path;
  baud_rate = o.baud_rate;
  duplex_mode = full_duplex;
  read_buffer_size = o.payload_size;
}

abbrev pub SerialMain : Type 0
SerialMain = Main SerialOptions (List ℕ) (SerialSession ReadHandler)

-- A result that was an error or `x` is `x` where it is no error.
result_cases {ℓ} :
    {A : Type ℓ} (r : ErrorCode × A) (x y : A)
    → (failed r.0 ≡ true) ⊎ (r ≡ (success, x))
    → (if failed r.0 then none else some r.1) ≡ some y
    → x ≡ y
result_cases r x y (inl e) f = let (h, _) = some-if (failed r.0) (r.1) f in absurd (cc)
result_cases r x y (inr e) f =
    let (_, same) = some-if (failed r.0) (r.1) f in sym (ap (λ q. q.1) e) ∙ same

module _ (port : Port) (config : SerialPortConfig) where
  -- A session whose port was opened and configured.
  abbrev pub opened : SerialSession ReadHandler → SerialSession ReadHandler
  opened s = configured port config (record s { own = record (s.own) { port_open = true } })

  open_port_cases :
      (s : SerialSession ReadHandler)
      → (failed (open_port port config s).0 ≡ true)
        ⊎ (open_port port config s ≡ (success, opened s))
  unfolding open_port
  open_port_cases s =
      if_cases
        (λ (r : ErrorCode × SerialSession ReadHandler).
          (failed r.0 ≡ true) ⊎ (r ≡ (success, opened s)))
        (failed (port.open_answer config.device_path)) (λ e. inl e)
        (λ _.
          elim (apply_config_cases port config
            (record s { own = record (s.own) { port_open = true } })) [
              | inl (ec, f, e) ↦
                  inl (ap (λ (r : ErrorCode × SerialSession ReadHandler). failed r.0) e ∙ f)
              | inr (h, e) ↦ inr (
                  ap
                    (λ (r : ErrorCode × SerialSession ReadHandler). (
                      r.0,
                      if failed r.0
                          then record (r.1) { own = record (r.1.own) { port_open = false } }
                          else r.1,
                    ))
                    e)
            ])

  pub create-opened :
      (s : SerialSession ReadHandler)
      → (create port config).0 ≡ some s
      → opened (construct serial_state) ≡ s
  unfolding create
  create-opened s e =
      result_cases (open_port port config (construct serial_state)) _ s
        (open_port_cases (construct serial_state)) e

module _ (stoull : String → Option ℕ) (host : Host) (clock : ℕ → ℕ) (port : Port) where
  -- From the first `send_next` on.
  unfoldable pub serial_running : SerialOptions → SerialSession ReadHandler → SerialMain
  serial_running o s =
      let b = send_next o.samples clock (make_payload host o.payload_size) new_bench in
      record {
        options = o;
        bench = b;
        session = run_calls serial_derived run_serial_call (first_calls b.in_flight) s;
      }

  unfoldable pub begin_serial_benchmark : List String → Begun SerialMain
  begin_serial_benchmark args = elim (parse_serial_options stoull args) [
    | none ↦ returned 1
    | some o ↦ created (create port (serial_benchmark_config o)) (λ s. running (serial_running o s))
  ]

  -- The session reads into a buffer of so many bytes, and its only message is being written.
  abbrev AsksFor : ℕ → List ℕ → SerialSession ReadHandler → Type 0
  AsksFor size request s =
      (s.closed ≡ false)
      × (s.read_in_progress ≡ true)
      × (s.write_in_progress ≡ true)
      × (writes s.trace ≡ request ∷ [])
      × (length s.own.read_buffer ≡ size)

  first_calls-AsksFor :
      (o : SerialOptions) (request : List ℕ)
      → AsksFor o.payload_size request (
          run_calls serial_derived run_serial_call
            (first_calls (request ∷ []))
            (opened port (serial_benchmark_config o) (construct serial_state)))
  unfolding construct serial_benchmark_config run_call run_calls schedule_operations enqueue_write
      try_read try_write can_start_read can_start_write do_read do_write
  first_calls-AsksFor o request = (refl, refl, refl, refl, length-resize o.payload_size _)

  -- What `main` leaves behind, by the options that were accepted.
  abbrev pub SerialBegins : Begun SerialMain → Type 0
  SerialBegins (returned code) = code ≡ 1
  SerialBegins (running m) =
      let request = make_payload host m.options.payload_size 0 in
      (m.bench.in_flight ≡ request ∷ [])
      × (m.bench.sent_count ≡ 1)
      × AsksFor m.options.payload_size request m.session

  serial_running-SerialBegins :
      (o : SerialOptions) (s : SerialSession ReadHandler)
      → 0 < o.samples
      → (create port (serial_benchmark_config o)).0 ≡ some s
      → SerialBegins (running (serial_running o s))
  unfolding serial_running
  serial_running-SerialBegins o s h e =
      let request = make_payload host o.payload_size 0 in
      let (queued, counted) = first_request o.samples clock (make_payload host o.payload_size) h in
      (
        queued,
        counted,
        subst
            (λ t.
              AsksFor o.payload_size request
                (run_calls serial_derived run_serial_call (first_calls t) s))
            (sym queued)
            (subst
              (λ t.
                AsksFor o.payload_size request
                  (run_calls serial_derived run_serial_call (first_calls (request ∷ [])) t))
              (create-opened port (serial_benchmark_config o) s e) (first_calls-AsksFor o request)),
      )

  -- Whatever the command line and the answers of the port, `main` of the serial benchmark returns 1, or
  -- it comes to `run` with one request, of sequence number 0, which the open session is writing while
  -- it reads into a buffer of the size of one response.
  pub begin_serial_benchmark_lem : (args : List String) → SerialBegins (begin_serial_benchmark args)
  unfolding begin_serial_benchmark
  begin_serial_benchmark_lem args =
      option_cases SerialBegins (parse_serial_options stoull args) (λ _. refl)
        (λ o e.
          created-cases SerialBegins (create port (serial_benchmark_config o)) _ refl
            (λ s f. serial_running-SerialBegins o s (parse_serial_options_lem stoull args o e).2 f))
