-- ===== src/Server/Serving.antt =====
-- An epoll event on an endpoint that lives.
use rpc_bench.Common.{
  ℕ, ◌≡◌, ◌≢◌, refl, ℤ, List, Bool, true, false, ◌||◌, some, Bytes, Outcome, Post, Post-bind, ◌==◌,
  arith,
}
use rpc_bench.Kernel.{Kernel, EpollEvent}
use rpc_bench.Kernel.Laws.{Stream, InterestList, Memory}
use rpc_bench.Poll.Event.{
  token, is_readable, is_writable, is_error, is_read_closed, is_write_closed,
}
use rpc_bench.Socket.Growth.{Aborts}
use rpc_bench.Endpoint.{Endpoint}
use rpc_bench.Endpoint.Send.{on_send_ready}
use rpc_bench.Endpoint.Receive.{on_recv_ready}
use rpc_bench.Endpoint.Connection.{Conn}
use rpc_bench.Endpoint.Lifetime.{IsEnough, with_process, on_recv_ready-Conn, on_send_ready-Conn}
use rpc_bench.Server.{Server, when, drop_failed, handle_data}

module _ (K : Kernel) (S : Stream K) (L : InterestList K) (M : Memory K) where
  open K use {World}

  -- The event of `object` was served: its connection is sound, and the map and the other objects
  -- are as they were.
  pub record Served (fd : ℤ) (input : List ℕ) (object : ℕ) (s s' : Server World) : Type 0 where
    pub endpoint : Endpoint World
    pub there : s'.objects object ≡ some endpoint
    pub sound : Conn K S L fd input endpoint
    pub same_process : endpoint.process ≡ s'.process
    pub same_endpoints : s'.endpoints ≡ s.endpoints
    pub others : (other : ℕ) → other ≢ object → s'.objects other ≡ s.objects other

  when-Conn :
      (fd : ℤ) (input : List ℕ) (b : Bool) (handler : Endpoint World → Outcome (Endpoint World))
      (c : Endpoint World)
      → Conn K S L fd input c
      → Post (Aborts K) (Conn K S L fd input) (handler c)
      → Post (Aborts K) (Conn K S L fd input) (when K b handler c)
  when-Conn fd input true handler c i h = h
  when-Conn fd input false handler c i h = i

  put-Served :
      (fd : ℤ) (input : List ℕ) (object : ℕ) (s : Server World) (c : Endpoint World)
      → Conn K S L fd input c
      → Post (Aborts K) (Served fd input object s) (drop_failed K s object false c)
  unfolding drop_failed
  put-Served fd input object s c i = record {
    endpoint = c;
    there = let same : (object == object) ≡ true = ground arith in rw same refl;
    sound = i;
    same_process = refl;
    same_endpoints = refl;
    others =
        λ other ne. let apart : (other == object) ≡ false = ground (arith, ne) in rw apart refl;
  }

  -- An event without an error or a hangup, on an object whose connection is sound in the process
  -- as it is, with enough fuel: unless the socket fails or memory is short, the server returns, the
  -- connection is sound, and the map and the other objects are as they were.
  pub handle_data-Served :
      (fuel : ℕ) (fd : ℤ) (input : List ℕ) (s : Server World) (ev : EpollEvent) (c : Endpoint World)
      → s.objects (token ev) ≡ some c
      → Conn K S L fd input (with_process K S L M c s.process)
      → Bytes input
      → IsEnough K S L M (with_process K S L M c s.process) fuel
      → (is_error ev || is_read_closed ev || is_write_closed ev) ≡ false
      → Post (Aborts K) (Served fd input (token ev) s) (handle_data K fuel s ev)
  unfolding handle_data
  handle_data-Served fuel fd input s ev c there sound bytes enough calm =
      rw (there, calm, handle_data)
        (Post-bind (Aborts K) (Conn K S L fd input) (Served fd input (token ev) s) _ _
          (when-Conn fd input (is_readable ev) (on_recv_ready K fuel) _ sound
            (on_recv_ready-Conn K S L M fuel fd input _ sound bytes enough))
          (λ c₁ i₁.
            Post-bind (Aborts K) (Conn K S L fd input) (Served fd input (token ev) s) _ _
              (when-Conn fd input (is_writable ev) (on_send_ready K fuel) c₁ i₁
                (on_send_ready-Conn K S L M fuel fd input c₁ i₁ enough.long))
              (λ c₂ i₂. put-Served fd input (token ev) s c₂ i₂)))
