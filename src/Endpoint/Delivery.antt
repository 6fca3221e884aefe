-- ===== src/Endpoint/Delivery.antt =====
-- Where the bytes have arrived, a Recv of src/socket/bw_server_endpoint.cc fills what is left of the
-- header or of the data.
use rpc_bench.Common.{
  IfDone, IfDone-last, ℕ, ◌-◌, ◌≤◌, ◌<◌, ◌^◌, ◌≡◌, refl, sym, ap, subst, ℤ, List, some, Bool, true,
  length, take, length-take, arith,
}
use rpc_bench.Kernel.{Kernel, Reply, got}
use rpc_bench.Kernel.Laws.{Stream}
use rpc_bench.Heap.{store}
use rpc_bench.Buffer.{get_remain_size, mark_handled, is_clear}
use rpc_bench.Socket.Transfer.{Process, recv_at}
use rpc_bench.Endpoint.{Endpoint}
use rpc_bench.Endpoint.Receive.{header_answer, data_complete, data_answer}
use rpc_bench.Endpoint.Frames.{window, get_remain_size-window, mark_handled-window}

module _ (K : Kernel) (S : Stream K) where
  open K use {World, recv}
  open S use {incoming}

  -- Bytes that are there are received when they are asked for.
  abbrev pub IsPrompt : Type 0
  IsPrompt =
      (w : World) (fd : ℤ) (n : ℕ)
      → n ≤ length (incoming w fd)
      → (recv w fd n).0 ≡ got (take n (incoming w fd))

  pub recv_at-full :
      (p : Process World) (fd : ℤ) (a i : ℕ) (old : List ℕ)
      → IsPrompt
      → i ≤ length old
      → length old < 2 ^ 32
      → length old - i ≤ length (incoming p.world fd)
      → IfDone
          (λ r. r.0 ≡ got (length old - i))
          (recv_at K p fd (some a) i (get_remain_size (window a (length old) i)))
  unfolding recv_at
  recv_at-full p fd a i old prompt fits small there =
      let len = length old - i in
      let size : length (take len (incoming p.world fd)) ≡ len =
        omega (arith, length-take len (incoming p.world fd)) in
      rw (get_remain_size-window a (length old) i fits small, recv_at)
        (rw (prompt p.world fd len there, recv_at)
          (IfDone-last {B = Reply ℕ × Process World} (λ r. r.0 ≡ got len)
            (store p.heap (some a) i (take len (incoming p.world fd)))
            (λ h. (
              got (length (take len (incoming p.world fd))),
              record { heap = h; world = (recv p.world fd len).1 },
            ))
            (λ h. ap got size)))

  -- A view that all the missing bytes went to.
  window-full :
      (a len i : ℕ)
      → i ≤ len
      → len < 2 ^ 32
      → is_clear (mark_handled (len - i) (window a len i)) ≡ true
  unfolding is_clear
  window-full a len i fits small =
      rw (mark_handled-window a len i (len - i) (omega arith)) (ground arith)

  pub answer_header-full :
      (c : Endpoint World) (a len i : ℕ) (r : Reply ℕ)
      → i ≤ len
      → len < 2 ^ 32
      → r ≡ got (len - i)
      → IfDone (λ s. s.0 ≡ true) (header_answer K c (window a len i) r)
  unfolding header_answer
  answer_header-full c a len i r fits small e =
      subst (λ x. IfDone (λ s. s.0 ≡ true) (header_answer K c (window a len i) x)) (sym e)
        (window-full a len i fits small)

  pub answer_data-full :
      (c : Endpoint World) (a len i : ℕ) (r : Reply ℕ)
      → i ≤ len
      → len < 2 ^ 32
      → r ≡ got (len - i)
      → IfDone (λ s. s.0 ≡ true) (data_answer K c (window a len i) r)
  unfolding data_answer
  answer_data-full c a len i r fits small e =
      subst (λ x. IfDone (λ s. s.0 ≡ true) (data_answer K c (window a len i) x)) (sym e)
        (rw (window-full a len i fits small, data_answer)
          (IfDone-last {B = Bool × Endpoint World} (λ s. s.0 ≡ true)
            (data_complete K
              (record c { data_buffer = some (mark_handled (len - i) (window a len i)) }))
            (λ c'. (true, c')) (λ c'. refl)))
