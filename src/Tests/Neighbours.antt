-- ===== src/Tests/Neighbours.antt =====
-- The theorems on several connections at concrete inputs: a server with no connection takes two, and
-- serves the first.
use rpc_bench.Common.{
  ℕ, ◌≡◌, refl, pos, Bool, false, List, [], ◌∷◌, Option, none, some, Outcome, done, fatal, fault,
  hung, write_at, arith,
}
use rpc_bench.Kernel.{EpollEvent}
use rpc_bench.Kernel.Script
use rpc_bench.Kernel.Hosts.{
  Hosts, hosts, hosts_stream, hosts_interests, hosts_memory, hosts-Apart, hosts-Accepts,
}
use rpc_bench.Endpoint.{Endpoint, new_endpoint, drop_buffer}
use rpc_bench.Poll.Event.{
  token, is_readable, is_writable, is_error, is_read_closed, is_write_closed,
}
use rpc_bench.Poll.Selector.{register, deregister, epoll_ctl_checked, reregister}
use rpc_bench.Socket.{accept_socket, set_non_block, close_socket, get_sock_error, is_closed}
use rpc_bench.Endpoint.Handlers.{on_accepted, get_peer_addr, destroy_endpoint, drop_all, on_error}
use rpc_bench.Socket.Transfer.{recv_all, recv_at, send_at}
use rpc_bench.Heap.{store, alloc, free, load}
use rpc_bench.Buffer.{
  allocate, view, set_msg_length, destroy, get_remain_size, is_clear, mark_handled, wrap,
}
use rpc_bench.Endpoint.Receive.{
  on_recv_ready, dispatch, from_new_rpc, and_then, receive_meta, prepare, ensure_owner, too_small,
  from_meta_recved, receive_header, read_header, decode_u32, header_answer, data_answer,
  data_complete, from_data_recved, from_header_recved, read_data, receive_data,
}
use rpc_bench.Endpoint.Send.{
  after_sent, complete, on_send_ready, reply, send_blocked, send_front, set_interest,
}
use rpc_bench.Poll.{add_assign, interest, interest_to_epoll}
use rpc_bench.Poll.{is_writable as interest_writable, is_readable as interest_readable}
use rpc_bench.Tests.Serving.{frame-Bytes}
use rpc_bench.Server.{
  Server, find, erase, assign, release, size_of_fd, handle_data, drop_failed, handle_new_connection,
  handle_event,
}
use rpc_bench.Server.Batch.{IsReady}
use rpc_bench.Server.Accepting.{IsFresh}
use rpc_bench.Server.Life.{Life, begun, later, served, accepted, IsEmpty, Life-Echo, Answers}
use rpc_bench.Tests.Data.{frame, no_blocks, long_fuel}

-- The same bytes arrive on every socket; nothing is sent yet, and nothing waits.
abbrev pub host : Script.World
host = record { arriving = frame; departed = []; answers = []; registration = none }

abbrev pub empty_server : Server Hosts
empty_server = record {
  process = record {
    heap = record { blocks = no_blocks; fresh = 0 };
    world = record { at = λ fd. host; waiting = pos 5 ∷ (pos 6 ∷ []); rounds = [] };
  };
  listener = pos 3;
  poll = pos 4;
  endpoints = [];
  objects = λ n. none;
  fresh = 8;
}

abbrev pub inputs : ℕ → List ℕ
inputs n = frame

empty_server-IsEmpty :
    IsEmpty hosts hosts_stream hosts_interests hosts_memory hosts-Apart hosts-Accepts empty_server
empty_server-IsEmpty = record { no_objects = λ n. refl; no_endpoints = refl }

first-IsFresh :
    IsFresh hosts hosts_stream hosts_interests hosts_memory hosts-Apart hosts-Accepts inputs
      empty_server
first-IsFresh new e = (ground (arith, e), λ n d there. cc)

abbrev returned : Outcome (Server Hosts) → Server Hosts
returned (done s) = s
returned (fatal cause) = empty_server
returned fault = empty_server
returned hung = empty_server

-- EPOLLIN on the listener, and on the first connection.
abbrev listener_event : EpollEvent
listener_event = record { events = 1; u64 = 3 }

abbrev data_event : EpollEvent
data_event = record { events = 1; u64 = 8 }

abbrev one_connection : Server Hosts
one_connection = returned (handle_event hosts long_fuel empty_server listener_event)

first_accepted : handle_event hosts long_fuel empty_server listener_event ≡ done one_connection
unfolding handle_event handle_new_connection accept_socket on_accepted get_peer_addr set_non_block
    register release new_endpoint find size_of_fd is_readable token
first_accepted = refl

second-IsFresh :
    IsFresh hosts hosts_stream hosts_interests hosts_memory hosts-Apart hosts-Accepts inputs
      one_connection
unfolding handle_event handle_new_connection accept_socket on_accepted get_peer_addr set_non_block
    register release new_endpoint find size_of_fd is_readable token
second-IsFresh new e = (ground (arith, e), λ n d there same. ground (arith, e, there, same))

abbrev two_connections : Server Hosts
two_connections = returned (handle_event hosts long_fuel one_connection listener_event)

second_accepted : handle_event hosts long_fuel one_connection listener_event ≡ done two_connections
unfolding handle_event handle_new_connection accept_socket on_accepted get_peer_addr set_non_block
    register release new_endpoint find size_of_fd is_readable token assign erase
second_accepted = refl

-- No socket failed.
abbrev pub unhurt : ℕ → Bool
unhurt n = false

abbrev Lives : Server Hosts → Type 0
Lives =
    Life hosts hosts_stream hosts_interests hosts_memory hosts-Apart hosts-Accepts inputs unhurt
      empty_server

two_live : Lives two_connections
unfolding handle_event handle_new_connection accept_socket on_accepted get_peer_addr set_non_block
    register release new_endpoint find size_of_fd is_readable token assign erase
two_live =
    later one_connection two_connections
      (later empty_server one_connection begun
        (accepted long_fuel listener_event refl refl first-IsFresh first_accepted))
      (accepted long_fuel listener_event refl refl second-IsFresh second_accepted)

abbrev at_object : Option (Endpoint Hosts) → Endpoint Hosts
at_object (some c) = c
at_object none = new_endpoint empty_server.process (pos 4) 0 (pos 5)

first-IsReady :
    IsReady hosts hosts_stream hosts_interests hosts_memory hosts-Apart long_fuel two_connections
      data_event
unfolding handle_event handle_new_connection accept_socket on_accepted get_peer_addr set_non_block
    register release new_endpoint find size_of_fd is_readable token assign erase
first-IsReady = record {
  endpoint = at_object (two_connections.objects 8);
  there = refl;
  live = λ e. cc;
  not_listener = λ e. omega arith;
  patient = omega arith;
}

abbrev one_served : Server Hosts
one_served = returned (handle_event hosts long_fuel two_connections data_event)

first_served : handle_event hosts long_fuel two_connections data_event ≡ done one_served
unfolding handle_event handle_new_connection accept_socket on_accepted get_peer_addr set_non_block
    register release new_endpoint find size_of_fd is_readable token assign erase handle_data
    drop_failed is_writable is_error is_read_closed is_write_closed interest_writable
    interest_readable recv_all recv_at send_at allocate view set_msg_length destroy get_remain_size
    is_clear mark_handled wrap store alloc free load drop_buffer destroy_endpoint drop_all on_error
    on_recv_ready dispatch from_new_rpc and_then receive_meta prepare ensure_owner too_small
    from_meta_recved receive_header read_header decode_u32 header_answer data_answer data_complete
    from_data_recved from_header_recved read_data receive_data after_sent complete on_send_ready
    reply send_blocked send_front set_interest deregister epoll_ctl_checked reregister add_assign
    interest interest_to_epoll close_socket get_sock_error is_closed write_at
first_served = refl

Life-Echo_example :
    Answers hosts hosts_stream hosts_interests hosts_memory hosts-Apart hosts-Accepts inputs 8
      unhurt one_served
unfolding handle_event handle_new_connection accept_socket on_accepted get_peer_addr set_non_block
    register release new_endpoint find size_of_fd is_readable token assign erase handle_data
    drop_failed is_writable is_error is_read_closed is_write_closed interest_writable
    interest_readable recv_all recv_at send_at allocate view set_msg_length destroy get_remain_size
    is_clear mark_handled wrap store alloc free load drop_buffer destroy_endpoint drop_all on_error
    on_recv_ready dispatch from_new_rpc and_then receive_meta prepare ensure_owner too_small
    from_meta_recved receive_header read_header decode_u32 header_answer data_answer data_complete
    from_data_recved from_header_recved read_data receive_data after_sent complete on_send_ready
    reply send_blocked send_front set_interest deregister epoll_ctl_checked reregister add_assign
    interest interest_to_epoll close_socket get_sock_error is_closed write_at
Life-Echo_example =
    Life-Echo hosts hosts_stream hosts_interests hosts_memory hosts-Apart hosts-Accepts inputs
      unhurt empty_server one_served (λ n. frame-Bytes) empty_server-IsEmpty
      (later two_connections one_served two_live
        (served long_fuel data_event first-IsReady (omega arith) (λ e. cc) first_served))
