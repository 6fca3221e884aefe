-- ===== src/Endpoint/Handlers.antt =====
-- OnAccepted, OnError and the destructor.
use rpc_bench.Heap.{Heap}
use rpc_bench.Buffer.{Buffer}
use rpc_bench.Common.{
  [], ◌∷◌, Option, ℕ, List, true, false, Outcome, done, fatal, check, pcheck, ◌>>=◌, ◌>>◌, require,
  ltb, length,
}
use rpc_bench.Kernel.{Kernel, Reply, got, error}
use rpc_bench.Poll.Selector.{register, deregister}
use rpc_bench.Socket.{get_sock_error, set_non_block, close_socket, is_closed}
use rpc_bench.Endpoint.{Endpoint, drop_buffer}
use rpc_bench.Socket.Transfer.{Process}

module _ (K : Kernel) where
  open K use {World, getpeername}

  abbrev pub at_world : Endpoint World → World → Endpoint World
  at_world c w = record c { process = record c.process { world = w } }

  -- GetPeerAddr; SockAddr checks that the address is not empty.
  unfoldable pub get_peer_addr : Endpoint World → Outcome (Endpoint World)
  get_peer_addr c = answer (getpeername c.process.world c.sock)
    where
      answer : Reply (List ℕ) × World → Outcome (Endpoint World)
      answer (got addr, w) = do
        require (ltb 0 (length addr)) check
        done (record (at_world c w) { sock_addr = addr })
      answer (error e, w) = fatal (pcheck e)

  unfoldable pub on_accepted : Endpoint World → Outcome (Endpoint World)
  on_accepted c = do
    c' ← get_peer_addr c
    w ← set_non_block K c'.process.world c'.sock true
    w' ← register K w c'.epfd c'.sock c'.self c'.interest
    done (at_world c' w')

  -- The log line reads SO_ERROR.
  unfoldable pub on_error : Endpoint World → Outcome (Endpoint World)
  on_error c = do
    code ← get_sock_error K c.process.world c.sock
    w ← deregister K code.1 c.epfd c.sock
    closed ← close_socket K w c.sock
    done (record (at_world c closed.1) { sock = closed.0 })

  unfoldable pub drop_all : Heap → List (Option Buffer) → Heap
  drop_all h [] = h
  drop_all h (b ∷ bs) = drop_all (drop_buffer h b) bs

  -- ~BwServerEndpoint(), and the destructors of its buffers, the last member first.
  unfoldable pub destroy_endpoint : Endpoint World → Outcome (Process World)
  unfolding drop_all
  destroy_endpoint c = do
    closed ← elim (is_closed c.sock) [
      | true ↦ done (c.sock, c.process.world)
      | false ↦ close_socket K c.process.world c.sock
    ]
    done (record {
      heap = drop_all c.process.heap (
          c.reply_buffer ∷ c.data_buffer ∷ c.header_buffer ∷ c.data_buffer_owner
          ∷ c.header_buffer_owner ∷ c.tx_queue);
      world = closed.1;
    })
