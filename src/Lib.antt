-- ===== src/Lib.antt =====
-- rpc-bench, a benchmark of RPC libraries: its own server and client over TCP, the meter and the
-- CPU counters it measures with, its command line and the choice of an application.
--
-- The program's parts and the files that model them:
--   * Heap.antt: the memory behind `char* ptr_`, as numbered blocks of bytes.
--   * Buffer.antt: class Buffer of src/socket/buffer.h. Its laws are in Buffer/Laws.antt.
--   * Poll.antt, Poll/Event.antt, Poll/Selector.antt: Interest, Event, Selector, Registry and Poll of
--     src/socket/poll.h. Poll/Bits.antt has the theorems on flags.
--   * Socket.antt, Socket/Transfer.antt: classes Socket and TcpSocket of src/socket/socket.h, with
--     recv_all for RecvAll and send_all for SendAll. Socket/Growth.antt and Socket/Streams.antt have
--     the theorems on them.
--   * Endpoint.antt, Endpoint/Receive.antt, Endpoint/Send.antt, Endpoint/Handlers.antt: class
--     BwServerEndpoint of src/socket/bw_server_endpoint.{h,cc}, one function per method. An RPC
--     starts with eight bytes of meta header, a header and the data follow, and the header is sent
--     back. Endpoint/Frames.antt says what holds at each point of an RPC; Endpoint/Idle.antt,
--     Preparing.antt, Meta.antt, Receiving.antt, HeaderSteps.antt, DataSteps.antt, Interests.antt,
--     Rounds.antt, Sending.antt and Rpc.antt there prove it step by step.
--     Endpoint/History.antt says what a connection's bytes show over its whole life;
--     Connection.antt, Lifetime.antt and Reach.antt there lead from the handlers to it.
--     Delivery.antt and Arrived.antt there are on an RPC of which all has arrived.
--   * Server.antt: SocketBwServerApp of src/socket/socket_bw_app.{h,cc}, with its map of endpoints and a
--     round of its event loop. Server/Aborts.antt, Events.antt and Serving.antt there are on one
--     connection and on the map. Server/Neighbours.antt says what holds of all connections at once;
--     Dropping.antt and Batch.antt there are on the events of a round, Welcoming.antt, Replacing.antt,
--     Ending.antt and Accepting.antt on a new connection, Life.antt on the server's whole life, and
--     Starting.antt and Running.antt on Init and Run.
--     That a handler leaves other sockets and blocks alone is in Socket/Spared.antt, Endpoint/Spared.antt,
--     SparedOwners.antt, SparedReceiving.antt and SparedSending.antt there.
--   * Client.antt: SocketBwClientApp there, and the structs and BwClientApp::Run of
--     src/bw_app.{h,cc}; Client/Wire.antt, Client/Pushing.antt and
--     Client/Totals.antt have the theorems.
--   * Bandwidth.antt: the bandwidth application over gRPC and brpc, src/grpc/grpc_bw_app.cc and
--     src/brpc/brpc_bw_app.cc; Bandwidth/Echo.antt has the theorems, and Bandwidth/RoundTrip.antt
--     the one that joins the client over TCP and the server there.
--   * Zeromq.antt: the same over ZeroMQ, src/zeromq/zeromq_bw_app.cc. Zeromq/Laws.antt states how
--     its sockets behave, Zeromq/Pushing.antt is on the client, Zeromq/Serving.antt on the server.
--   * Async.antt: the loops over a gRPC completion queue in src/grpc/grpc_tput_app.cc and
--     src/grpc/hotel_reservation_app.cc; Async/Drain.antt is on the clients, Async/Waiting.antt on the
--     server.
--   * Latency.antt: src/grpc/grpc_lat_app.cc and src/lat_app.cc. Latency/Timing.antt is on the loop of
--     the client, Latency/Quantiles.antt on what it prints.
--   * CpuStat.antt: src/cpu_stat.{h,cc}. Meter.antt: src/meter.h.
--   * Options.antt: src/command_opts.h and ParseArgument of src/rpc_bench.cc; Options/Last.antt says
--     what the options of a line ask for, Options/Parse.antt is on ParseArgument. App.antt: App::Create of
--     src/app.cc. Program.antt: main and CpuMonitor of src/rpc_bench.cc; Program/Outcomes.antt is on
--     main.
--   * Setup.antt: how each application connects or listens, the Init of the classes in src/grpc,
--     src/brpc, src/zeromq and src/socket, with AddrInfo of src/socket/socket.h, by what they ask of
--     the libraries. Setup/Sides.antt says which calls are a client's and a server's, Setup/Addresses.antt
--     is on the addresses, Setup/Decimal.antt on the text of a port.
--   * SocketLat.antt: src/socket/socket_lat_app.cc. Environment.antt: GetEnvOrDefault of
--     src/prism/utils.h, and what the program sets by it.
--
-- An endpoint keeps the registration of its socket at the poll in step with its interest, reads
-- and writes through the socket into blocks that its buffers own or view, and the server calls its
-- handlers on epoll events.
--
-- Kernel.antt is what the program takes from the operating system, a parameter; Kernel/Laws.antt
-- states the documented behaviour that the theorems use, and Kernel/Script.antt is a kernel that
-- plays a script, for which it holds, as it does for Kernel/Prompt.antt, where every byte is there.
-- Kernel/Apart.antt states that a call on one descriptor leaves the others alone, which holds for
-- Kernel/Hosts.antt, with a script for each descriptor. A CHECK that fails ends in `fatal`, an access
-- outside a live block or an exception of the standard library in `fault`. Common/ has the shared names and lemmas, Tests/ the concrete runs.
--
-- Loops take fuel: RecvAll and SendAll a unit for each byte and for each delay, which the kernel's
-- `patience` bounds within one handler, OnSendReady one for each byte left and two more, which
-- 2^32 + 2 covers for every reply, and RoundUpPower2 the 64 bits of a long. Numbers wrap where the
-- source's type does: uint32_t in Buffer, uint64_t in CpuStat, the counters in Meter; a sum that the
-- long or int of the constructor in Meter does not hold is a `fault`.
--
-- Not modelled: gRPC, brpc and ZeroMQ, which are parameters where the program's own code depends on
-- them; the order in which the threads of an application run, each with a queue and calls of its own;
-- UdpSocket, which nothing uses; and the printed results, log and usage texts.
mod Common
pub mod CpuStat
pub mod Options
pub mod App
pub mod Program
pub mod Meter
pub mod Environment
mod Tests
pub mod Kernel
pub mod Heap
pub mod Buffer
pub mod Poll
pub mod Socket
pub mod Endpoint
pub mod Server
pub mod SocketLat
pub mod Client
pub mod Bandwidth
pub mod Zeromq
pub mod Async
pub mod Latency
pub mod Setup
