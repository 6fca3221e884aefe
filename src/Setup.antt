-- ===== src/Setup.antt =====
-- How each application connects or listens before it runs: the Init, and where the threads do it
-- themselves the Run, of the clients and servers of src/grpc, src/brpc, src/zeromq and src/socket.
-- What they ask of the libraries is a list of calls, with the codes that the libraries return as a
-- parameter. `D` is double.
pub mod Decimal
pub mod Sides
pub mod Addresses
use rpc_bench.Common.{
  ℕ, zero, suc, ◌+◌, ◌-◌, ◌/◌, ◌%◌, ◌^◌, ℤ, pos, negsuc, Bool, true, false, List, [], ◌∷◌, ◌++◌,
  Option, none, some, replicate, ◌==◌, if◌then◌else◌, Outcome, done, fault, Cause, check, log_fatal,
  ◌>>=◌, ◌>>◌, require, deref,
}
use rpc_bench.Options.{CommandOpts}
use rpc_bench.App.{
  App, server_app, client_app, grpc_bw, socket_bw, brpc_bw, zeromq_bw, grpc_lat, grpc_tput,
  hotel_reservation,
}
use rpc_bench.Environment.{grpc_max_threads}
use rpc_bench.Bandwidth.{BrpcServer, brpc_server_init}
use Prim.Native.Char.{Char}
use Prim.Native.String.{String, char_at, ◌++◌ as concat}

-- A decimal digit.
abbrev pub digit : ℕ → Char
digit d = char_at "0123456789" d

-- The digits of a number in front of `out`; an int has ten at most.
unfoldable pub digits : ℕ → ℕ → String → String
digits zero n out = out
digits (suc fuel) n out =
    let more = digits fuel (n / 10) (String.◌∷◌ (digit (n % 10)) out) in
    if n == 0 then out else more

-- std::to_string(int).
unfoldable pub to_string : ℤ → String
to_string (pos n) = if n == 0 then "0" else digits 10 n ""
to_string (negsuc n) = concat "-" (digits 10 (suc n) "")

-- host + ":" + std::to_string(port).
unfoldable pub uri : String → ℤ → String
uri host port = concat host (concat ":" (to_string port))

-- The conversion of an int to uint16_t.
unfoldable pub uint16_of_int : ℤ → ℕ
uint16_of_int (pos n) = n % 2 ^ 16
uint16_of_int (negsuc n) = 2 ^ 16 - 1 - n % 2 ^ 16

-- What an application asks of gRPC, brpc, ZeroMQ and the resolver. A local channel has
-- GRPC_ARG_USE_LOCAL_SUBCHANNEL_POOL; `get_addr_info` has AI_PASSIVE or not, the node and the
-- service.
pub data Call : Type 0 where
  channel local_channel brpc_channel : String → Call
  health_check reflection register_service completion_queue build_and_start : Call
  max_threads : ℤ → Call
  max_message_size : ℕ → Call
  listening_port : String → Call
  add_brpc_service : Call
  start_brpc : ℤ → Call
  zmq_ctx_new zmq_req zmq_rep : Call
  zmq_connect zmq_bind : String → Call
  get_addr_info : Bool → Option String → String → Call

-- Threads that each do the same, one after the other here; their order does not show.
unfoldable pub in_threads : ℕ → Outcome (List Call) → Outcome (List Call)
in_threads zero job = done []
in_threads (suc n) job = do calls ← job; others ← in_threads n job; done (calls ++ others)

module _ (answer : Call → ℕ) where
  -- A call whose code is checked.
  unfoldable pub ask : Call → Cause → Outcome (List Call)
  ask c cause = do require (answer c == 0) cause; done (c ∷ [])

  -- The constructors of AddrInfo.
  unfoldable pub passive_addr_info : ℕ → Outcome (List Call)
  passive_addr_info port = ask (get_addr_info true none (to_string (pos port))) check

  unfoldable pub host_addr_info : String → ℕ → Bool → Outcome (List Call)
  host_addr_info host port passive =
      ask (get_addr_info passive (some host) (to_string (pos port))) check

  -- The calls of a brpc server, with their codes.
  abbrev pub brpc_log : BrpcServer
  brpc_log = record {
    World = List Call;
    add_service = λ w. (answer add_brpc_service, w ++ (add_brpc_service ∷ []));
    start = λ w port. (answer (start_brpc port), w ++ (start_brpc port ∷ []));
  }

  module _ {D : Type 0} where
    -- GrpcBwClientApp::Init.
    unfoldable pub grpc_bw_client_init : CommandOpts D → Outcome (List Call)
    grpc_bw_client_init opts = do host ← deref opts.host; done (channel (uri host opts.port) ∷ [])

    -- GrpcLatClientApp::Init.
    unfoldable pub grpc_lat_client_init : CommandOpts D → Outcome (List Call)
    grpc_lat_client_init opts = do host ← deref opts.host; done (channel (uri host opts.port) ∷ [])

    -- HotelReservationClientApp::Init.
    unfoldable pub hotel_client_init : CommandOpts D → Outcome (List Call)
    hotel_client_init opts = do host ← deref opts.host; done (channel (uri host opts.port) ∷ [])

    -- The start of GrpcTputClientApp::Job.
    unfoldable pub tput_client_job : CommandOpts D → Outcome (List Call)
    tput_client_job opts = do host ← deref opts.host; done (local_channel (uri host opts.port) ∷ [])

    -- GrpcTputClientApp::Run; reserve throws at a negative number.
    unfoldable pub tput_client_run : CommandOpts D → Outcome (List Call)
    tput_client_run opts = elim opts.thread [
      | negsuc n ↦ fault
      | pos n ↦ do
        others ← in_threads n (tput_client_job opts)
        done (replicate n completion_queue ++ others)
    ]

    -- BrpcBwClientApp::Init.
    unfoldable pub brpc_client_init : CommandOpts D → Outcome (List Call)
    brpc_client_init opts = do
      host ← deref opts.host
      ask (brpc_channel (uri host opts.port)) log_fatal

    -- ZeromqBwClientApp::Init.
    unfoldable pub zeromq_client_init : CommandOpts D → Outcome (List Call)
    zeromq_client_init opts = do
      host ← deref opts.host
      done (zmq_ctx_new ∷ zmq_req ∷ zmq_connect (concat "tcp://" (uri host opts.port)) ∷ [])

    -- The address in SocketBwClientApp::Init; the port becomes a uint16_t.
    unfoldable pub socket_client_addr : CommandOpts D → Outcome (List Call)
    socket_client_addr opts = do
      host ← deref opts.host
      host_addr_info host (uint16_of_int opts.port) false

    -- GrpcBwServerApp::Init, where `threads` is new_max_threads.
    unfoldable pub grpc_bw_server_init : ℤ → CommandOpts D → List Call
    grpc_bw_server_init threads opts =
        health_check
        ∷ reflection
        ∷ max_threads threads
        ∷ max_message_size (2 ^ 31 - 1)
        ∷ listening_port (uri "0.0.0.0" opts.port)
        ∷ register_service
        ∷ build_and_start
        ∷ []

    -- HotelReservationServerApp::Init.
    unfoldable pub hotel_server_init : ℤ → CommandOpts D → List Call
    hotel_server_init threads opts =
        health_check
        ∷ reflection
        ∷ max_threads threads
        ∷ max_message_size (2 ^ 31 - 1)
        ∷ listening_port (uri "0.0.0.0" opts.port)
        ∷ register_service
        ∷ completion_queue
        ∷ build_and_start
        ∷ []

    -- GrpcLatServerApp::Run up to its threads; reserve throws at a negative number.
    unfoldable pub lat_server_run : CommandOpts D → Outcome (List Call)
    lat_server_run opts = elim opts.thread [
      | negsuc n ↦ fault
      | pos n ↦ done (
          max_message_size (2 ^ 31 - 1)
          ∷ listening_port (uri "0.0.0.0" opts.port)
          ∷ register_service
          ∷ (replicate n completion_queue ++ (build_and_start ∷ [])))
    ]

    -- ZeromqBwServerApp::Init.
    unfoldable pub zeromq_server_init : CommandOpts D → Outcome (List Call)
    zeromq_server_init opts = do
      bound ← ask (zmq_bind (concat "tcp://" (uri "0.0.0.0" opts.port))) check
      done (zmq_ctx_new ∷ zmq_rep ∷ bound)

    -- The address in SocketBwServerApp::Init.
    unfoldable pub socket_server_addr : CommandOpts D → Outcome (List Call)
    socket_server_addr opts = passive_addr_info (uint16_of_int opts.port)

    -- What Run of an application over gRPC, brpc or ZeroMQ calls first, where `threads` is
    -- new_max_threads of a gRPC server.
    unfoldable pub start : ℤ → CommandOpts D → App → Option (Outcome (List Call))
    start threads opts (client_app grpc_bw) = some (grpc_bw_client_init opts)
    start threads opts (client_app socket_bw) = none
    start threads opts (client_app brpc_bw) = some (brpc_client_init opts)
    start threads opts (client_app zeromq_bw) = some (zeromq_client_init opts)
    start threads opts (client_app grpc_lat) = some (grpc_lat_client_init opts)
    start threads opts (client_app grpc_tput) = some (tput_client_run opts)
    start threads opts (client_app hotel_reservation) = some (hotel_client_init opts)
    start threads opts (server_app grpc_bw) = some (done (grpc_bw_server_init threads opts))
    start threads opts (server_app socket_bw) = none
    start threads opts (server_app brpc_bw) = some (brpc_server_init brpc_log [] opts.port)
    start threads opts (server_app zeromq_bw) = some (zeromq_server_init opts)
    start threads opts (server_app grpc_lat) = some (lat_server_run opts)
    start threads opts (server_app grpc_tput) = some (lat_server_run opts)
    start threads opts (server_app hotel_reservation) = some (done (hotel_server_init threads opts))
