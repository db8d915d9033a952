-- ===== src/Can/Tests.antt =====
-- The theorems on CAN frames and sessions at the values of Linux.
use transit_session.Base.{
  none, false, ◌||◌, ◌≤◌, length, ◌≡◌, refl, true, not, some, ◌⊎◌, bit, if◌then◌else◌, List, [],
  ◌∷◌, ◌++◌, arith, replicate,
}
use transit_session.Errors.{ErrorCode, success, protocol_error, failed}
use transit_session.Core.{
  close, close_session, Call, accepted, read_started, read_finished, notified, write_started,
  start_reading, send, schedule_operations, try_read, try_write, run_calls, notify_read,
  enqueue_write, set_read_handler, construct, run_call,
}
use transit_session.Core.Machine.{Reach, here, next, calls, read_completes}
use transit_session.Core.Invariant.{Inv}
use transit_session.Core.Settled.{Settled}
use transit_session.Core.Arrival.{Arrival}
use transit_session.Can.{CanConfig, CanFilter, CanFrame, default_can_config, default_can_frame}
use transit_session.Can.Reopened.{CanLife, created_can-Wired}
use transit_session.Can.Linux.{working, working-IsKernel, linux_can, linux_can-IsLinuxCan}
use transit_session.Can.Codec.{raw_frame, encode_id, encode_frame, decode_frame}
use transit_session.Can.Fields.{IsFrame}
use transit_session.Can.Loops.{zeros-IsBytes}
use transit_session.Can.RoundTrip.{decode_frame-encode_frame}
use transit_session.Can.Session.{
  close_transport, can_start_read, can_start_write, do_read, do_write, read_completed, can_state,
  CanSession, can_machine, can_derived, no_own,
}
use transit_session.Can.Abi.{eff_flag, rtr_flag}
use transit_session.Base.Bits.{has_flag}
use transit_session.Can.Open.{
  raw_filters, open_can_session, raw_filter, configure_socket, open_socket, create,
}
use transit_session.Can.Descriptor.{
  takings, returns, handovers, options_set, fd_frames_of, loopback_of, receive_own_of, filters_of,
  open_socket_lem,
}
use transit_session.Can.Filters.{raw_filter_lem}
use transit_session.Can.Created.{created_can-Inv, created_can-Settled}
use transit_session.Can.Delivery.{deliveries-encode_frame, deliveries-read_completed}
use transit_session.Core.Trace.{deliveries}

abbrev ping : CanFrame
ping = record default_can_frame {
  id = 0x123;
  data_length = 2;
  bytes = 7 ∷ 9 ∷ replicate 62 0;
  extended_id = true;
}

ping-IsFrame : IsFrame linux_can ping
unfolding default_can_frame
ping-IsFrame = record {
  id_fits = omega arith;
  array = refl;
  data_fits = (omega arith, (omega arith, zeros-IsBytes 62));
}

decode_frame-encode_frame_example :
    decode_frame linux_can 16
      ((0x23 ∷ 1 ∷ 0 ∷ 0x80 ∷ 2 ∷ 0 ∷ 0 ∷ 0 ∷ 7 ∷ 9 ∷ replicate 6 0) ++ replicate 56 0)
      ping
    ≡ (success, ping)
unfolding default_can_frame encode_frame raw_frame encode_id
decode_frame-encode_frame_example =
    decode_frame-encode_frame linux_can linux_can-IsLinuxCan ping ping-IsFrame default_can_config _
      (replicate 56 0) ping refl

-- Every handler sends what it is given back.
abbrev echo : Unit {0} → ErrorCode → CanFrame → List (Call CanFrame (Unit {0}) ⊥)
echo h ec f = send f ∷ []

abbrev fresh : CanSession (Unit {0})
fresh = construct (record (can_state linux_can) { socket_open = true })

fresh_created : (create working linux_can default_can_config).0 ≡ some fresh
unfolding create open_socket configure_socket can_state
fresh_created = refl

abbrev listening : CanSession (Unit {0})
listening =
    run_call (can_derived linux_can) (no_own linux_can) start_reading
      (run_call (can_derived linux_can) (no_own linux_can) (set_read_handler (some tt)) fresh)

abbrev ping_arrives : Arrival
ping_arrives = record { ec = success; bytes = linux_can.frame_bytes (raw_frame linux_can ping) }

abbrev echoed : CanSession (Unit {0})
echoed = read_completed linux_can echo ping_arrives listening

echo_reached : Reach (can_machine linux_can echo) fresh echoed
unfolding construct can_state run_call schedule_operations try_read try_write can_start_read
    can_start_write do_read raw_frame
echo_reached =
    next (next (next here (calls (set_read_handler (some tt)))) (calls start_reading))
      (read_completes ping_arrives (omega arith) (omega arith))

-- The frame that came in is being sent, and the next read is under way.
echo_trace :
    echoed.trace
    ≡ read_started
      ∷ write_started ping
      ∷ accepted ping
      ∷ notified success ping
      ∷ read_finished success
      ∷ read_started
      ∷ []
unfolding construct can_state run_call run_calls schedule_operations try_read try_write
    can_start_read can_start_write do_read raw_frame encode_id read_completed decode_frame
    notify_read enqueue_write do_write encode_frame default_can_frame
echo_trace = refl

created_can-Inv_example : Inv echoed
created_can-Inv_example =
    created_can-Inv linux_can default_can_config echo working working-IsKernel fresh_created
      echo_reached

created_can-Settled_example : Settled echoed
created_can-Settled_example =
    created_can-Settled linux_can default_can_config echo working working-IsKernel fresh_created
      echo_reached

-- CAN FD with one filter.
abbrev filtering : CanConfig
filtering = record default_can_config {
  enable_can_fd = true;
  loopback = false;
  receive_own_messages = true;
  filters = record { id = 291; mask = 2047; extended_id = false; remote_frame = false } ∷ [];
}

open_socket_lem_example :
    let (ec, es, e) = open_socket working linux_can filtering (can_state linux_can) in
    (takings es ≡ returns es ++ handovers es)
    × (length (takings es) ≤ 1)
    × (length (handovers es) ≡ bit (not (failed ec)))
    × (e.socket_open ≡ not (failed ec))
    × (e.config ≡ (if failed ec then default_can_config else filtering))
    × ((failed ec ≡ true)
        ⊎ ((fd_frames_of (options_set es) ≡ true ∷ [])
            × (loopback_of (options_set es) ≡ false ∷ [])
            × (receive_own_of (options_set es) ≡ true ∷ [])
            × (filters_of (options_set es) ≡ raw_filters linux_can filtering.filters ∷ [])))
unfolding can_state
open_socket_lem_example =
    open_socket_lem working working-IsKernel linux_can filtering (can_state linux_can) refl

-- The session is closed, and `open` then gives it another descriptor.
abbrev shut : CanSession (Unit {0})
shut = run_call (can_derived linux_can) (no_own linux_can) close fresh

abbrev reopened : CanSession (Unit {0})
reopened = (open_can_session working linux_can filtering shut).1

reopened_life : CanLife linux_can echo fresh (some filtering) reopened
unfolding construct can_state run_call close_session close_transport open_socket configure_socket
reopened_life =
    CanLife.opens working filtering working-IsKernel (CanLife.next CanLife.here (calls close))

created_can-Wired_example :
    (reopened.own.socket_open ≡ (not reopened.closed || true))
    × (reopened.own.config ≡ filtering)
    × ((some filtering ≡ none) ⊎ (reopened.closed ≡ true))
created_can-Wired_example =
    created_can-Wired linux_can default_can_config echo working working-IsKernel fresh_created
      reopened_life

-- The bytes of a frame come in, and the handler is given the frame.
deliveries-encode_frame_example : deliveries echoed.trace ≡ (success, ping) ∷ []
unfolding default_can_frame encode_frame raw_frame encode_id construct can_state run_call
    schedule_operations try_read try_write can_start_read can_start_write do_read
deliveries-encode_frame_example =
    deliveries-encode_frame linux_can echo linux_can-IsLinuxCan default_can_config ping ping-IsFrame
      ping_arrives listening refl refl

-- Three bytes are no frame.
abbrev short_arrival : Arrival
short_arrival = record { ec = success; bytes = 1 ∷ 2 ∷ 3 ∷ [] }

deliveries-read_completed_example :
    deliveries (read_completed linux_can echo short_arrival listening).trace
    ≡ (protocol_error, default_can_frame) ∷ []
unfolding construct can_state run_call schedule_operations try_read try_write can_start_read
    can_start_write do_read decode_frame
deliveries-read_completed_example = deliveries-read_completed linux_can echo short_arrival listening

-- Extended frames from the identifier 0x123 on.
abbrev extended_only : CanFilter
extended_only = record { id = 0x123; mask = 0x7FF; extended_id = true; remote_frame = false }

raw_filter_lem_example :
    (has_flag 0x80000123 (eff_flag linux_can) ≡ true)
    × ((true || has_flag 0x80000123 (rtr_flag linux_can)) ≡ true)
unfolding raw_filter
raw_filter_lem_example = raw_filter_lem linux_can linux_can-IsLinuxCan extended_only 0x80000123 refl
