-- ===== src/Example/Rounds.antt =====
-- The request and response loop in `main` of example/websocket_benchmark.cpp, example/can_benchmark.cpp
-- and example/serial_benchmark.cpp: the variables that the lambdas capture, `send_next`, the three read
-- handlers and the check of the timeout thread. A reading of the clock is a parameter, and the
-- messages given to `send` are kept in order until they are answered.
use Prim.Native.Nat.{zero, suc}
use transit_session.Base.{
  ℕ, ◌+◌, ◌-◌, ◌*◌, ◌%◌, ◌^◌, Bool, true, false, not, ◌||◌, List, [], ◌∷◌, ◌++◌, ltb, ◌==◌,
  if◌then◌else◌, length, drop,
}
use transit_session.Errors
use transit_session.Errors.{ErrorCode}
use transit_session.Can.{CanFrame}
use transit_session.Example.Stats.{LatencyStats, no_stats, add}
use transit_session.Example.Payload.{Host, word_size, make_payload, make_frame, read_sequence}
pub mod Progress
pub mod Echoed
pub mod Looped
pub mod Drained
pub mod Arrived
pub mod Ended

-- `readings` counts the calls of `Clock::now`; `closed` and `stopped` say that `close` and
-- `io_context.stop` were called.
pub record Bench (M : Type 0) : Type 0 where
  pub stats : LatencyStats
  pub failed : Bool
  pub completed : Bool
  pub sent_count : ℕ
  pub received_count : ℕ
  pub expected_sequence : ℕ
  pub send_started_at : ℕ
  pub readings : ℕ
  pub closed : Bool
  pub stopped : Bool
  pub in_flight : List M

abbrev pub new_bench : {M : Type 0} → Bench M
new_bench = record {
  stats = no_stats;
  failed = false;
  completed = false;
  sent_count = 0;
  received_count = 0;
  expected_sequence = 0;
  send_started_at = 0;
  readings = 0;
  closed = false;
  stopped = false;
  in_flight = [];
}

-- The four statements that end a run.
unfoldable pub complete : {M : Type 0} → Bench M → Bench M
complete s = record s { completed = true; closed = true; stopped = true }

unfoldable pub fail : {M : Type 0} → Bench M → Bench M
unfolding complete
fail s = record (complete s) { failed = true }

-- `samples` is `options.samples`, `make` the request of a sequence number.
module _ {M : Type 0} (samples : ℕ) (clock : ℕ → ℕ) (make : ℕ → M) where
  unfoldable pub send_next : Bench M → Bench M
  send_next s =
      if not (ltb s.sent_count samples)
      then s
      else (let expected_sequence = s.sent_count % 2 ^ 32 in
          record s {
            expected_sequence = expected_sequence;
            send_started_at = clock s.readings;
            readings = s.readings + 1;
            sent_count = s.sent_count + 1;
            in_flight = s.in_flight ++ make expected_sequence ∷ [];
          })

  -- The tail of the three handlers: from the comparison of the sequence numbers on.
  unfoldable pub on_sequence : ℕ → Bench M → Bench M
  unfolding fail complete send_next
  on_sequence actual_sequence s =
      if not (actual_sequence == s.expected_sequence)
      then fail s
      else (let taken = record s {
        stats = add (clock s.readings - s.send_started_at) s.stats;
        readings = s.readings + 1;
        received_count = s.received_count + 1;
      } in
          if not (ltb taken.received_count samples) then complete taken else send_next taken)

  -- Whether the tail returns early: the two branches that end the run.
  unfoldable pub ends : ℕ → Bench M → Bool
  ends actual_sequence s =
      not (actual_sequence == s.expected_sequence) || not (ltb (s.received_count + 1) samples)

-- One round of the timeout thread: `limit` is `options.timeout * static_cast<int>(options.samples)`.
unfoldable pub on_tick : {M : Type 0} → ℕ → ℕ → ℕ → Bench M → Bench M
unfolding fail
on_tick limit start now s =
    if s.completed then s else (if ltb (now - start) limit then s else fail s)

module _ (host : Host) (samples : ℕ) (clock : ℕ → ℕ) where
  -- The read handler of the WebSocket benchmark.
  unfoldable pub on_message : ℕ → ErrorCode → List ℕ → Bench (List ℕ) → Bench (List ℕ)
  on_message payload_size read_ec bytes s =
      if Errors.failed read_ec
      then fail s
      else (if ltb (length bytes) word_size
          then fail s
          else on_sequence samples clock (make_payload host payload_size) (read_sequence host bytes)
              s)

  -- The read handler of the CAN benchmark: a frame of another id, or without room for a sequence
  -- number, is passed over.
  unfoldable pub on_frame : ℕ → Bool → ErrorCode → CanFrame → Bench CanFrame → Bench CanFrame
  on_frame can_id fd_frame read_ec frame s =
      if Errors.failed read_ec
      then fail s
      else (if not (frame.id == can_id) || ltb frame.data_length word_size
          then s
          else on_sequence samples clock (λ sequence. make_frame host can_id sequence fd_frame)
              (read_sequence host frame.bytes) s)

-- What happens while `io_context.run` is under way: the read handler is called, or the timeout thread
-- looks at the clock.
pub data Event (D : Type 0) : Type 0 where
  arrives : ErrorCode → D → Event D
  tick : ℕ → Event D

-- No handler is called once the context is stopped.
module _ {M D : Type 0} (on_read : ErrorCode → D → Bench M → Bench M) (limit start : ℕ) where
  abbrev pub on_event : Event D → Bench M → Bench M
  on_event (arrives ec d) s = if s.stopped then s else on_read ec d s
  on_event (tick now) s = on_tick limit start now s

  abbrev pub run_events : List (Event D) → Bench M → Bench M
  run_events [] s = s
  run_events (e ∷ es) s = run_events es (on_event e s)

-- What `main` returns after `run`.
abbrev pub exit_code : {M : Type 0} → Bench M → ℕ
exit_code s = if s.failed then 1 else 0

-- The serial benchmark has the bytes of an incomplete response besides.
pub record SerialBench : Type 0 where
  pub pending_response : List ℕ
  pub bench : Bench (List ℕ)

module _ (host : Host) (samples : ℕ) (clock : ℕ → ℕ) (payload_size : ℕ) where
  -- `while (pending_response.size() >= options.payload_size)`, on fuel. A return from the body stops
  -- the loop.
  unfoldable pub drain : ℕ → SerialBench → SerialBench
  drain zero s = s
  drain (suc fuel) s =
      let actual_sequence = read_sequence host s.pending_response in
      let make = make_payload host payload_size in
      let next : SerialBench = record {
        pending_response = drop payload_size s.pending_response;
        bench = on_sequence samples clock make actual_sequence s.bench;
      } in
      let rest = drain fuel next in
      if ltb (length s.pending_response) payload_size
      then s
      else (if ends samples clock make actual_sequence s.bench then next else rest)

  unfoldable pub on_bytes : ErrorCode → List ℕ → SerialBench → SerialBench
  on_bytes read_ec bytes s =
      if Errors.failed read_ec
      then record s { bench = fail s.bench }
      else (let pending = s.pending_response ++ bytes in
          drain (length pending) (record s { pending_response = pending }))
