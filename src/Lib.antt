-- ===== src/Lib.antt =====
-- TransitSession: asynchronous sessions over CAN, serial ports and WebSocket.
--
-- The program is a header-only library on Boost.Asio. A session runs on one strand: its public calls
-- and the completions of its asynchronous reads and writes are handled one at a time. The class
-- template AsyncTransportSession of core/async_transport_session.hpp holds the write queue and the
-- flags, and calls five hooks of the derived class (can_start_read, can_start_write, do_read,
-- do_write, close_transport). Four derived classes exist: CanSession, SerialSession,
-- WebSocketSession and WebSocketServerSession, the last of which a WebSocketServer creates for each
-- connection that it accepts.
--
-- Files and sources
--   Base, Errors       lists, bits and Boolean tests over the native numbers; the error codes that
--                      the code makes, tests or compares.
--   Core               core/async_transport_session.hpp. `Session` has the members; `Derived` is the
--                      hooks; `run_call` is the public calls, `schedule_operations`, `notify_read`,
--                      `close_session` (close) and the rest carry the source's names.
--   Core/Trace         ghost: what a session did so far, newest first, and what is counted in it.
--   Core/Machine       the step relation: a public call, the completion of a read that is pending or
--                      the completion of a write that is pending, in any order.
--   Core/Channel       the abstract channel: messages are taken, sent one at a time in order, and lost
--                      when it is shut.
--   Core/Preserve, Core/Invariant, Core/Ended, Core/Growth, Core/Settled, Core/Delivery
--                      what holds of every session, proved once over the hooks.
--   Core/QueueTest     test/core_queue_test.cpp: its transport as hooks of the base class.
--   Can                transport/can/can_config.hpp and can_frame.hpp; Can/Codec, Can/Session and
--                      Can/Open are the parts of transport/can/can_session.hpp; Can/Abi is what it
--                      takes from linux/can.h. Can/Fields and Can/RoundTrip are about frames,
--                      Can/Filters and Can/Descriptor about opening, Can/Safety, Can/Liveness,
--                      Can/Delivery and Can/Created about the life of a session, Can/Reopened about
--                      one that is opened again.
--   Serial             transport/serial/serial_config.hpp; Serial/Session and Serial/Open are the
--                      parts of transport/serial/serial_session.hpp. Serial/Reconfigured has the
--                      calls of open and apply_config on an existing session.
--   Websocket          transport/websocket/websocket_config.hpp and websocket_server_config.hpp;
--                      Websocket/Client with Client/Open is transport/websocket/websocket_session.hpp
--                      (Client/Reopened: open on an existing session),
--                      Websocket/ServerSession with ServerSession/Start is
--                      transport/websocket/websocket_server_session.hpp. Websocket/Server is
--                      transport/websocket/websocket_server.hpp: `WebSocketServer` is the listener with
--                      the objects of its connections; Server/System has the steps of both together,
--                      Server/Sessions what a step of a session means to the listener.
--                      Websocket/Growth is about the writes of both sessions, Websocket/Agreement about
--                      what the two sources have in common.
--   Legacy             core/async_session.hpp, an older template that the four classes do not use. It
--                      posts its calls, so a handler's calls are steps of their own.
--   Example            the programs: Example/Stats is example/latency_stats.hpp, Example/Payload the
--                      requests and Example/Rounds the loop of requests and responses of
--                      example/websocket_benchmark.cpp, can_benchmark.cpp and serial_benchmark.cpp.
--                      Example/Options is their command lines.
--                      Example/Echo is the echo behaviour of example/websocket_server.cpp on a server
--                      session, and Echo/Connection a client session, the echo server session and the
--                      network between them; Example/Host has values for the tests.
--                      Example/Programs is `main` of the programs up to io_context.run (Programs/Can,
--                      Programs/Serial and Programs/WebsocketBenchmark of the benchmarks,
--                      Programs/Websocket of example/websocket_server.cpp, Programs/Sessions of
--                      example/can_session.cpp and serial_session.cpp), and Programs/Greeting the whole
--                      run of example/websocket_session.cpp. Programs/Finished is the end of the
--                      benchmarks' `main`, and Programs/Outcome the WebSocket benchmark from its command
--                      line to that end.
--                      Rounds/Looped runs the CAN benchmark over the codec of the CAN session.
--
-- How state corresponds to code
--   A method is a function from the session before to the session after. An asynchronous operation is
--   two functions: the method up to the start of the operation, and its completion handler
--   (`read_completed`, `write_completed`), which runs in a later step. Starting, completing, accepting
--   a message, notifying and closing are logged in the trace, which no function reads.
--   A read handler is a value of a parameter type, and the parameter `react` gives the calls that it
--   makes; dispatch on the strand that is running executes them inside the step, and so does
--   `run_calls`. The close handler of a server session is counted; the listener's part of it is in
--   Websocket/Server.
--   The steps of Core/Machine are the calls of the base class and of a session's own setters. `open`,
--   which is public as well, is a step of the relations `CanLife`, `ClientLife` and, with `apply_config`,
--   `SerialLife`; `Reach` alone has no such step. `stop` of the listener stands still as soon as its loop changes the set that it iterates
--   over, and marks this in `erased_in_loop`: what happens then is undefined.
--   Buffers are lists of byte values. A completion brings its code and the bytes that were put at the
--   front of the buffer. Every function is structural, but for the loop of the serial benchmark's
--   handler (`drain`), which runs on fuel: one round for each pending byte, which is enough since a
--   response has at least four.
--   What `main` of a program calls before `io_context.run`, the context runs first, in that order; what
--   the thread of the WebSocket benchmark's server does before is the parameter `serve`.
--   The timeout thread of a benchmark runs its rounds between the handlers; `Clock::now` gives the values
--   of a function, in turn.
--
-- Parameters
--   The flag bits and the memory layout of can_frame and canfd_frame (`LinuxCan`, with the laws
--   `IsLinuxCan`: distinct flag bits, and a structure that is copied to bytes and back is the same);
--   what the serial port, the CAN system calls, the resolver, the TCP socket and Beast's stream answer
--   (`Port`, `Kernel`, `Network`, `Acceptor`, and the arguments of `start`). A read brings at most what
--   its buffer or the message limit holds (`Arrives`). For the programs, the bytes of a std::uint32_t
--   (`Host`, with `IsHost`), std::stoull, std::stoul and std::to_string, the characters of a std::string,
--   std::sort and the index of a percentile (`Standard`, with `IsStandard`), and the clock.
--
-- Not modelled
--   The timeouts of Beast's streams: the option is set, but a stream that its timeout closes is seen
--   only by the errors of its operations, and `is_open` is what the sessions themselves did to it.
--   What follows once the loop of `stop` has changed its set.
--   When objects are destroyed, and an io_context that several threads run, where a dispatch to another
--   strand may be put off.
--   The threads of the benchmarks besides the timeout thread's rounds, and their sleeps; the text that
--   the programs write, and the exceptions that io_context.run may throw; the allocations that
--   test/core_queue_test.cpp counts.
mod Base
pub mod Errors
pub mod Core
pub mod Can
pub mod Serial
pub mod Websocket
pub mod Legacy
pub mod Example
