-- ===== src/Tests/Life.antt =====
-- The theorems on the life of a connection at concrete inputs.
use rpc_bench.Common.{refl, inl, [], ◌∷◌, Outcome, done, fatal, fault, hung, Post, arith}
use rpc_bench.Kernel.Script.{
  World, moves, waits, script, script_stream, script_interests, script_memory,
}
use rpc_bench.Socket.Growth.{Aborts}
use rpc_bench.Buffer.{allocate, view, destroy, set_msg_length, get_remain_size, is_clear}
use rpc_bench.Socket.Transfer.{recv_at, recv_all}
use rpc_bench.Endpoint.{Endpoint, drop_buffer}
use rpc_bench.Endpoint.Send.{on_send_ready}
use rpc_bench.Endpoint.Receive.{
  on_recv_ready, dispatch, from_new_rpc, and_then, receive_meta, prepare, ensure_owner, too_small,
  from_meta_recved, receive_header, read_header, decode_u32, header_answer,
}
use rpc_bench.Endpoint.History.{Echo}
use rpc_bench.Endpoint.Lifetime.{IsEnough}
use rpc_bench.Endpoint.Reach.{Reach, start, after, recv_ready, Reach-Echo, Reach-Total}
use rpc_bench.Tests.Data.{long_fuel, socket_5, frame, wire, waiting_endpoint}
use rpc_bench.Endpoint.Idle.{Idle}
use rpc_bench.Tests.Serving.{frame-Bytes}

abbrev returned : Outcome (Endpoint World) → Endpoint World
returned (done c) = c
returned (fatal cause) = waiting_endpoint
returned fault = waiting_endpoint
returned hung = waiting_endpoint

-- The meta header arrives, and the header is late.
abbrev early_endpoint : Endpoint World
early_endpoint = record waiting_endpoint {
  process = record waiting_endpoint.process {
    world = record wire { answers = waits ∷ moves 7 ∷ waits ∷ [] };
  };
}

early_endpoint-Idle : Idle script script_stream script_interests socket_5 0 0 early_endpoint
early_endpoint-Idle = record {
  linked = record { on = refl; known = refl; valid = omega arith };
  header_owner = inl (refl, refl);
  data_owner = inl (refl, refl);
  distinct = λ a (n, e). absurd (cc);
  header_view = inl refl;
  data_view = inl refl;
  header_fits = omega arith;
  data_fits = omega arith;
  reply_free = refl;
  queue = refl;
  state = refl;
}

abbrev begun_endpoint : Endpoint World
begun_endpoint = returned (on_recv_ready script long_fuel early_endpoint)

early_endpoint-IsEnough :
    IsEnough script script_stream script_interests script_memory early_endpoint long_fuel
early_endpoint-IsEnough = record { patient = omega arith; long = omega arith }

begun : Reach script script_stream script_interests script_memory early_endpoint begun_endpoint
unfolding on_recv_ready dispatch from_new_rpc and_then receive_meta recv_all prepare ensure_owner
    too_small allocate from_meta_recved receive_header read_header recv_at view set_msg_length
    drop_buffer destroy get_remain_size is_clear decode_u32 header_answer
begun =
    after early_endpoint begun_endpoint start
      (recv_ready long_fuel begun_endpoint early_endpoint-IsEnough refl)

Reach-Echo_example :
    Echo script script_stream socket_5 frame (begun_endpoint.process.world.departed)
Reach-Echo_example =
    Reach-Echo script script_stream script_interests script_memory socket_5 frame early_endpoint
      begun_endpoint early_endpoint-Idle refl refl frame-Bytes begun

Reach-Total_example :
    Post
      (Aborts script)
      (Reach script script_stream script_interests script_memory early_endpoint)
      (on_recv_ready script long_fuel early_endpoint)
    × Post
        (Aborts script)
        (Reach script script_stream script_interests script_memory early_endpoint)
        (on_send_ready script long_fuel early_endpoint)
Reach-Total_example =
    Reach-Total script script_stream script_interests script_memory long_fuel socket_5 frame
      early_endpoint early_endpoint early_endpoint-Idle refl refl frame-Bytes start
      early_endpoint-IsEnough
