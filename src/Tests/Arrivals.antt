-- ===== src/Tests/Arrivals.antt =====
-- The theorem on an RPC of which all has arrived at a concrete input.
use rpc_bench.Common.{ℕ, refl, [], inl, take, Post, arith}
use rpc_bench.Kernel.Prompt.{prompt, prompt_stream, prompt_interests, prompt_memory}
use rpc_bench.Socket.Growth.{Aborts}
use rpc_bench.Endpoint.Receive.{decode_u32, on_recv_ready}
use rpc_bench.Endpoint.Idle.{Idle}
use rpc_bench.Endpoint.Preparing.{begin}
use rpc_bench.Endpoint.Arrived.{Replied, on_recv_ready-Replied}
use rpc_bench.Tests.Data.{socket_5, frame, waiting_endpoint}
use rpc_bench.Tests.Serving.{frame-Bytes}

waiting_endpoint-Idle : Idle prompt prompt_stream prompt_interests socket_5 0 0 waiting_endpoint
waiting_endpoint-Idle = record {
  linked = record { on = refl; known = refl; valid = omega arith };
  header_owner = inl (refl, refl);
  data_owner = inl (refl, refl);
  distinct = λ a (n, e). absurd (cc);
  header_view = inl refl;
  data_view = inl refl;
  header_fits = omega arith;
  data_fits = omega arith;
  reply_free = refl;
  queue = refl;
  state = refl;
}

on_recv_ready-Replied_example :
    Post
      (Aborts prompt)
      (λ c'.
        (x : ℕ) × (y : ℕ) × Replied prompt prompt_stream prompt_interests
          (begin prompt prompt_stream prompt_interests prompt_memory socket_5 0 0 frame []
            (take 8 frame)
            x
            y)
          c')
      (on_recv_ready prompt 11 waiting_endpoint)
unfolding decode_u32
on_recv_ready-Replied_example =
    on_recv_ready-Replied prompt prompt_stream prompt_interests 11 socket_5 0 0 frame []
      waiting_endpoint prompt_memory (λ w fd n there. refl) waiting_endpoint-Idle refl refl
      frame-Bytes (omega arith) (omega arith) (omega arith)
