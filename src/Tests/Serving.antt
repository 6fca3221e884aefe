-- ===== src/Tests/Serving.antt =====
-- The theorems on the server's endpoint at concrete inputs.
use rpc_bench.Common.{ℕ, zero, suc, refl, inl, inr, List, [], ◌∷◌, Option, some, Post, arith, Bytes}
use rpc_bench.Kernel.Script.{World, script, script_stream, script_interests, script_memory}
use rpc_bench.Socket.Growth.{Aborts}
use rpc_bench.Endpoint.{Endpoint, new_rpc, meta_recved, replying}
use rpc_bench.Endpoint.Send.{on_send_ready}
use rpc_bench.Endpoint.Receive.{decode_u32, on_recv_ready}
use rpc_bench.Endpoint.Frames.{Exchange, owned, window, Linked, Partly, AtReply, Answered, Finished}
use rpc_bench.Endpoint.Sending.{on_send_ready-Answered}
use rpc_bench.Endpoint.Idle.{Idle}
use rpc_bench.Endpoint.Rpc.{Served, Taken, on_recv_ready-Served, on_recv_ready-Taken, Finished-Idle}
use rpc_bench.Tests.Data.{socket_5, frame, wire, waiting_endpoint}

registered_for : Linked script script_stream script_interests socket_5 waiting_endpoint
registered_for = record { on = refl; known = refl; valid = omega arith }

pub waiting_endpoint-Idle : Idle script script_stream script_interests socket_5 0 0 waiting_endpoint
waiting_endpoint-Idle = record {
  linked = registered_for;
  header_owner = inl (refl, refl);
  data_owner = inl (refl, refl);
  distinct = λ a (n, e). absurd (cc);
  header_view = inl refl;
  data_view = inl refl;
  header_fits = omega arith;
  data_fits = omega arith;
  reply_free = refl;
  queue = refl;
  state = refl;
}

pub frame-Bytes : Bytes frame
frame-Bytes = (
  omega arith,
  (
    omega arith,
    (
      omega arith,
      (
        omega arith,
        (
          omega arith,
          (
            omega arith,
            (omega arith, (omega arith, (omega arith, (omega arith, (omega arith, tt))))),
          ),
        ),
      ),
    ),
  ),
)

on_recv_ready-Taken_example :
    Post
      (Aborts script)
      (Taken script script_stream script_interests script_memory socket_5 0 0 frame [])
      (on_recv_ready script 11 waiting_endpoint)
unfolding decode_u32
on_recv_ready-Taken_example =
    on_recv_ready-Taken script script_stream script_interests script_memory 11 socket_5 0 0 frame []
      waiting_endpoint waiting_endpoint-Idle refl refl frame-Bytes (omega arith) (omega arith)

-- In the middle of an RPC: the header is received, and one byte of the data.
abbrev rpc : Exchange
rpc = record {
  fd = socket_5;
  input = frame;
  output = [];
  meta = 1 ∷ 0 ∷ 0 ∷ 0 ∷ 2 ∷ 0 ∷ 0 ∷ 0 ∷ [];
  header_block = 0;
  data_block = 1;
  old_header = 0;
  old_data = 0;
}

abbrev blocks_of_rpc : ℕ → Option (List ℕ)
blocks_of_rpc zero = some (9 ∷ [])
blocks_of_rpc (suc n) = some (5 ∷ 0 ∷ [])

abbrev half_received : Endpoint World
half_received = record waiting_endpoint {
  process = record {
    heap = record { blocks = blocks_of_rpc; fresh = 2 };
    world = record wire { arriving = 6 ∷ [] };
  };
  header_buffer_owner = some (owned 0 1);
  data_buffer_owner = some (owned 1 2);
  header_buffer = some (window 0 1 1);
  data_buffer = some (window 1 2 1);
  state = meta_recved;
}

half_received-Partly :
    Partly script script_stream script_interests rpc meta_recved
      (9 ∷ [])
      (5 ∷ 0 ∷ [])
      1
      1
      half_received
unfolding decode_u32
half_received-Partly = record {
  during = record {
    linked = record { on = refl; known = refl; valid = omega arith };
    held = record {
      header_owner = refl;
      data_owner = refl;
      header_view = refl;
      data_view = refl;
      header_holds = (refl, omega arith);
      data_holds = (refl, omega arith);
      distinct = λ e. omega (arith, e);
      header_fits = omega arith;
      data_fits = omega arith;
      header_part = omega arith;
      data_part = omega arith;
    };
    state = refl;
    queue = refl;
    reply_free = refl;
    meta_length = omega arith;
    header_length = omega arith;
    data_length = omega arith;
    stream = refl;
    replied = refl;
  };
  in_order = inr refl;
  data_missing = inl (omega arith);
  header_missing = inl refl;
}

on_recv_ready-Served_example :
    Post
      (Aborts script)
      (Served script script_stream script_interests rpc)
      (on_recv_ready script 3 half_received)
unfolding decode_u32
on_recv_ready-Served_example =
    on_recv_ready-Served script script_stream script_interests 3 rpc meta_recved (9 ∷ [])
      (5 ∷ 0 ∷ []) 1 1 half_received half_received-Partly (omega arith)

-- The data is there too, and the header is queued as the reply.
abbrev replying_endpoint : Endpoint World
replying_endpoint = record half_received {
  process = record {
    heap = record { blocks = blocks_of_rpc; fresh = 2 };
    world = record wire { arriving = [] };
  };
  tx_queue = some (window 0 1 0) ∷ [];
  data_buffer = some (window 1 2 2);
  state = replying;
}

abbrev whole_rpc : Exchange
whole_rpc = record rpc { input = 1 ∷ 0 ∷ 0 ∷ 0 ∷ 2 ∷ 0 ∷ 0 ∷ 0 ∷ 9 ∷ 5 ∷ 0 ∷ [] }

replying_endpoint-AtReply :
    AtReply script script_stream script_interests whole_rpc
      (9 ∷ [])
      (5 ∷ 0 ∷ [])
      0
      replying_endpoint
unfolding decode_u32
replying_endpoint-AtReply = record {
  linked = record { on = refl; known = refl; valid = omega arith };
  held = record {
    header_owner = refl;
    data_owner = refl;
    header_view = refl;
    data_view = refl;
    header_holds = (refl, omega arith);
    data_holds = (refl, omega arith);
    distinct = λ e. omega (arith, e);
    header_fits = omega arith;
    data_fits = omega arith;
    header_part = omega arith;
    data_part = omega arith;
  };
  state = refl;
  queue = refl;
  reply_free = refl;
  meta_length = omega arith;
  header_length = omega arith;
  data_length = omega arith;
  stream = refl;
  replied = refl;
}

on_send_ready-Answered_example :
    Post
      (Aborts script)
      (Answered script script_stream script_interests whole_rpc (9 ∷ []) (5 ∷ 0 ∷ []))
      (on_send_ready script 3 replying_endpoint)
on_send_ready-Answered_example =
    on_send_ready-Answered script script_stream script_interests 3 whole_rpc (9 ∷ []) (5 ∷ 0 ∷ []) 0
      replying_endpoint replying_endpoint-AtReply (omega arith) (omega arith)

-- After the reply.
abbrev finished_endpoint : Endpoint World
finished_endpoint = record replying_endpoint {
  process = record {
    heap = record { blocks = blocks_of_rpc; fresh = 2 };
    world = record wire { arriving = []; departed = 9 ∷ [] };
  };
  tx_queue = [];
  state = new_rpc;
}

finished_endpoint-Finished :
    Finished script script_stream script_interests whole_rpc (9 ∷ []) (5 ∷ 0 ∷ []) finished_endpoint
unfolding decode_u32
finished_endpoint-Finished = record {
  linked = record { on = refl; known = refl; valid = omega arith };
  held = replying_endpoint-AtReply.held;
  state = refl;
  queue = refl;
  reply_free = refl;
  meta_length = omega arith;
  header_length = omega arith;
  data_length = omega arith;
  stream = refl;
  replied = refl;
}

Finished-Idle_example : Idle script script_stream script_interests socket_5 1 2 finished_endpoint
Finished-Idle_example =
    Finished-Idle script script_stream script_interests whole_rpc (9 ∷ []) (5 ∷ 0 ∷ [])
      finished_endpoint finished_endpoint-Finished
