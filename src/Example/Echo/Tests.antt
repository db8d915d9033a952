-- ===== src/Example/Echo/Tests.antt =====
-- A run of the echo server: one message arrives, and its write ends.
use transit_session.Base.{◌≡◌, refl, true, false, none, List, [], ◌∷◌, ◌++◌, arith}
use transit_session.Errors.{success}
use transit_session.Core.{
  construct, run_call, run_calls, schedule_operations, try_read, try_write, enqueue_write,
  notify_read,
}
use transit_session.Core.Trace.{writes}
use transit_session.Core.Arrival.{Arrival}
use transit_session.Websocket.{no_timeout, Bytes, Stream, default_web_socket_server_config}
use transit_session.Websocket.ServerSession.{
  run_server_call, create, can_start_read, can_start_write, do_read, do_write, read_completed,
  write_completed,
}
use transit_session.Websocket.ServerSession.Start.{start, accept_completed, accepted_session, ready}
use transit_session.Example.Echo.{
  EchoHandler, EchoSession, echo_react, attach_echo_behavior, EchoReach, received,
}
use transit_session.Example.Echo.Served.{echo_server_lem}

abbrev open_stream : Stream
open_stream = record {
  is_open = true;
  binary = false;
  read_message_max = 16777216;
  timeout = no_timeout;
}

abbrev connected : EchoSession
connected =
    attach_echo_behavior (ready open_stream default_web_socket_server_config true success success)

abbrev two_bytes : Arrival
two_bytes = record { ec = success; bytes = 7 ∷ 9 ∷ [] }

abbrev answering : EchoSession
answering = read_completed echo_react two_bytes connected

begun :
    (accepted_session {H = EchoHandler} open_stream default_web_socket_server_config true success
      success).1
    ≡ none
unfolding start create run_server_call construct
begun = refl

answers : EchoReach connected answering
unfolding start accept_completed create run_server_call construct run_call run_calls
    schedule_operations try_read try_write can_start_read can_start_write do_read
answers = EchoReach.reads EchoReach.here two_bytes (omega arith) (omega arith)

answered : EchoReach connected (write_completed success answering)
unfolding start accept_completed create run_server_call construct run_call run_calls
    schedule_operations try_read try_write can_start_read can_start_write do_read do_write
    enqueue_write notify_read read_completed
answered = EchoReach.writes answers success (omega arith)

echo_server_lem_example :
    ((rest : List Bytes) × (received (write_completed success answering).trace
        ≡ writes (write_completed success answering).trace ++ rest))
    × ((write_completed success answering).closed ≡ false
        → (write_completed success answering).write_in_progress ≡ false
        → received (write_completed success answering).trace
          ≡ writes (write_completed success answering).trace)
echo_server_lem_example =
    echo_server_lem open_stream default_web_socket_server_config true success success refl begun
      refl answered

-- The message was received and written.
answered_once : writes (write_completed success answering).trace ≡ (7 ∷ 9 ∷ []) ∷ []
unfolding start accept_completed create run_server_call construct run_call run_calls
    schedule_operations try_read try_write can_start_read can_start_write do_read do_write
    enqueue_write notify_read read_completed write_completed
answered_once = refl
