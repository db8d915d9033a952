-- ===== src/Example/Tests.antt =====
-- The theorems on the benchmarks at concrete values.
use transit_session.Base.{
  Option, none, false, ℕ, ◌+◌, ◌*◌, ◌%◌, ◌^◌, ◌≤◌, ◌<◌, ◌≡◌, ◌⊎◌, refl, true, some, List, [], ◌∷◌,
  arith, if◌then◌else◌, length, get_or,
}
use transit_session.Errors.{success, system}
use transit_session.Can.{CanFrame, fd_data_size, default_can_config, default_can_frame}
use transit_session.Can.Linux.{linux_can, linux_can-IsLinuxCan}
use Prim.Native.String.{String}
use text.Mathlib.Text.{◌==◌}
use transit_session.Example.Options.{Options, default_options, parse_options, options_round}
use transit_session.Example.Options.Accepted.{parse_options_lem}
use transit_session.Example.Host.{little, little-IsHost, exact, exact-IsStandard}
use transit_session.Example.Stats.{Summary, no_stats, add_all, print_summary}
use transit_session.Example.Stats.Printed.{print_summary_lem, IsOrdered}
use transit_session.Example.Payload.{make_payload, make_frame, read_sequence}
use transit_session.Example.Payload.Filled.{make_frame_lem}
use transit_session.Example.Rounds.{
  Event, new_bench, send_next, on_message, on_frame, on_bytes, drain, SerialBench, run_events,
}
use transit_session.Example.Rounds.Progress.{BenchInv, run_events_lem, start-BenchInv}
use transit_session.Example.Rounds.Echoed.{IsAnswered, timed_rounds}
use transit_session.Example.Rounds.Looped.{on_loop, loop_frames_lem}
use transit_session.Example.Rounds.Arrived.{on_bytes-append}
use transit_session.Example.Rounds.Ended.{on_bytes_lem}

print_summary_lem_example :
    (z : Summary) × (print_summary exact (add_all (30 ∷ 10 ∷ 20 ∷ []) no_stats) ≡ some z)
    × (z.count ≡ 3)
    × IsOrdered z
print_summary_lem_example = print_summary_lem exact exact-IsStandard 30 (10 ∷ 20 ∷ []) (omega arith)

make_payload_bytes : make_payload little 8 300 ≡ 44 ∷ 1 ∷ 0 ∷ 0 ∷ 4 ∷ 5 ∷ 6 ∷ 7 ∷ []
unfolding make_payload
make_payload_bytes = refl

abbrev frame_7 : CanFrame
frame_7 = make_frame little 0x123 7 true

make_frame_lem_example :
    (frame_7.data_length ≡ 16)
    × (length frame_7.bytes ≡ fd_data_size)
    × (read_sequence little frame_7.bytes ≡ 7)
    × ((i : ℕ) → 4 ≤ i → i < frame_7.data_length → get_or frame_7.bytes i 0 ≡ i % 2 ^ 8)
make_frame_lem_example = make_frame_lem little little-IsHost 0x123 7 true (omega arith)

-- A clock that goes on by a microsecond with each reading.
abbrev ticking : ℕ → ℕ
ticking n = 1000 * n

abbrev requested : ℕ → List ℕ
requested = make_payload little 8

abbrev messages : List (Event (List ℕ))
messages =
    Event.arrives success (requested 0)
    ∷ Event.tick 50
    ∷ Event.arrives success (requested 2)
    ∷ Event.tick 200
    ∷ []

abbrev frames : List (Event CanFrame)
frames =
    Event.arrives success default_can_frame
    ∷ Event.arrives success (make_frame little 0x123 0 true)
    ∷ Event.arrives (system 5) default_can_frame
    ∷ []

run_events_lem_example :
    BenchInv 3 (
      run_events
        (on_message little 3 ticking 8)
        100
        0
        messages
        (send_next 3 ticking requested new_bench))
    × BenchInv 3 (
        run_events
          (on_frame little 3 ticking 0x123 true)
          100
          0
          frames
          (send_next 3 ticking (λ n. make_frame little 0x123 n true) new_bench))
run_events_lem_example =
    run_events_lem little 3 ticking 100 0 8 0x123 true messages frames (omega arith)

-- The timeout thread looks every ten milliseconds, twice before an answer.
abbrev looks : ℕ → List ℕ
looks k = 10 ∷ 20 ∷ []

loop_frames_lem_example : IsAnswered 3 (
    timed_rounds
      (on_loop linux_can default_can_config default_can_frame
        (on_frame little 3 ticking 0x123 true))
      looks
      3000
      0
      3
      (send_next 3 ticking (λ n. make_frame little 0x123 n true) new_bench))
loop_frames_lem_example =
    loop_frames_lem little little-IsHost linux_can linux_can-IsLinuxCan 0x123 (omega arith) true 3
      ticking default_can_config refl default_can_frame looks 3000 0
      (λ k. (omega arith, (omega arith, tt))) (omega arith)

abbrev open_one : SerialBench
open_one = record { pending_response = []; bench = send_next 3 ticking requested new_bench }

abbrev first_part : List ℕ
first_part = 0 ∷ 0 ∷ 0 ∷ []

on_bytes_lem_example :
    (drain little 3 ticking 8 (3 + 5) (record open_one { pending_response = first_part })
      ≡ drain little 3 ticking 8 3 (record open_one { pending_response = first_part }))
    × BenchInv 3 (on_bytes little 3 ticking 8 success first_part open_one).bench
    × (((on_bytes little 3 ticking 8 success first_part open_one).bench.stopped ≡ true)
        ⊎ (length (on_bytes little 3 ticking 8 success first_part open_one).pending_response < 8))
unfolding send_next
on_bytes_lem_example =
    on_bytes_lem little 3 ticking 8 (omega arith) 5 success first_part open_one refl
      (start-BenchInv 3 ticking requested (omega arith))

on_bytes-append_example :
    on_bytes little 3 ticking 8 success (0 ∷ 0 ∷ 0 ∷ 0 ∷ 4 ∷ 5 ∷ 6 ∷ 7 ∷ []) open_one
    ≡ on_bytes little 3 ticking 8 success
        (0 ∷ 4 ∷ 5 ∷ 6 ∷ 7 ∷ [])
        (on_bytes little 3 ticking 8 success first_part open_one)
unfolding send_next on_bytes drain
on_bytes-append_example =
    on_bytes-append little 3 ticking 8 (omega arith) first_part (0 ∷ 4 ∷ 5 ∷ 6 ∷ 7 ∷ []) open_one
      refl

abbrev few_numbers : String → Option ℕ
few_numbers text =
    if text == "64"
    then some 64
    else (if text == "3" then some 3 else (if text == "65537" then some 65537 else none))

abbrev arguments : List String
arguments = "--payload" ∷ "64" ∷ "--text" ∷ "--port" ∷ "65537" ∷ "--samples" ∷ "3" ∷ []

abbrev chosen : Options
chosen = record default_options { payload_size = 64; samples = 3; port = 1; binary_mode = false }

parse_options_lem_example :
    (1 < 2 ^ 16)
    × (4 ≤ 64)
    × (0 < 3)
    × IsAnswered 3 (
        timed_rounds
          (on_message little 3 ticking 64 success)
          looks
          3000
          0
          3
          (send_next 3 ticking (make_payload little 64) new_bench))
unfolding parse_options options_round
parse_options_lem_example =
    parse_options_lem few_numbers little little-IsHost ticking looks 3000 0
      (λ k. (omega arith, (omega arith, tt))) arguments chosen refl
