-- ===== src/Socket/Transfer.antt =====
-- Recv into a buffer, SendAll and RecvAll of TcpSocket (src/socket/socket.h).
use rpc_bench.Common.{
  ℕ, zero, suc, ◌+◌, ◌-◌, ℤ, true, false, List, ◌++◌, Option, drop, length, Outcome, done, hung,
  ◌>>=◌, ltb, ◌==◌,
}
use rpc_bench.Kernel.{Kernel, Reply, got, error}
use rpc_bench.Kernel.Laws.{would_block}
use rpc_bench.Heap.{Heap, store, load}
use rpc_bench.Socket.{get_sock_error}

-- The process: its memory and the rest of the world.
pub record Process (W : Type 0) : Type 0 where
  pub heap : Heap
  pub world : W

module _ (K : Kernel) where
  open K use {World, recv, send}

  -- The kernel writes what it received at `ptr + off`.
  deliver : Process World → Option ℕ → ℕ → Reply (List ℕ) → Outcome (Reply ℕ × Process World)
  deliver p ptr off (error e) = done (error e, p)
  deliver p ptr off (got bytes) = do
    heap ← store p.heap ptr off bytes
    done (got (length bytes), record p { heap = heap })

  -- Recv(ptr + off, len).
  unfoldable pub recv_at : Process World → ℤ → Option ℕ → ℕ → ℕ → Outcome (Reply ℕ × Process World)
  unfolding deliver
  recv_at p fd ptr off len =
      let (r, w) = recv p.world fd len in deliver (record p { world = w }) ptr off r

  -- Send(ptr + off, len).
  unfoldable pub send_at : Process World → ℤ → Option ℕ → ℕ → ℕ → Outcome (Reply ℕ × Process World)
  send_at p fd ptr off len = do
    bytes ← load p.heap ptr off len
    let (r, w) = send p.world fd bytes
    done (r, record p { world = w })

  -- RecvAll: `cbuf` is what stands in the first `n` bytes of the buffer, and what is returned is
  -- these bytes, with `n` as their number.
  unfoldable pub recv_all : ℕ → World → ℤ → ℕ → List ℕ → Outcome (List ℕ × World)
  recv_all zero w fd len cbuf = hung
  recv_all (suc fuel) w fd len cbuf = elim (ltb (length cbuf) len) [
    | false ↦ done (cbuf, w)
    | true ↦ elim (recv w fd (len - length cbuf)).0 [
      | error e ↦ elim (would_block e) [
        | true ↦ recv_all fuel (recv w fd (len - length cbuf)).1 fd len cbuf
        | false ↦ do
          code ← get_sock_error K (recv w fd (len - length cbuf)).1 fd
          done (cbuf, code.1)
      ]
      | got bytes ↦ elim (length bytes == 0) [
        | true ↦ done (cbuf, (recv w fd (len - length cbuf)).1)
        | false ↦ recv_all fuel (recv w fd (len - length cbuf)).1 fd len (cbuf ++ bytes)
      ]
    ]
  ]

  -- SendAll: `n` bytes of `buf` are accepted so far.
  unfoldable pub send_all : ℕ → World → ℤ → List ℕ → ℕ → Outcome (ℕ × World)
  send_all zero w fd buf n = hung
  send_all (suc fuel) w fd buf n = elim (ltb n (length buf)) [
    | false ↦ done (n, w)
    | true ↦ elim (send w fd (drop n buf)).0 [
      | error e ↦ elim (would_block e) [
        | true ↦ send_all fuel (send w fd (drop n buf)).1 fd buf n
        | false ↦ do code ← get_sock_error K (send w fd (drop n buf)).1 fd; done (n, code.1)
      ]
      | got r ↦ send_all fuel (send w fd (drop n buf)).1 fd buf (n + r)
    ]
  ]
