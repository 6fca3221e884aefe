-- ===== src/Socket/Spared.antt =====
-- What the transfers of src/socket/socket.h leave of the other sockets and of the memory.
use rpc_bench.Common.{
  ℕ, zero, suc, ◌+◌, ◌-◌, ◌≡◌, ◌≢◌, refl, inl, inr, ℤ, List, ◌++◌, Option, none, some, length,
  Outcome, done, ltb, leb, ◌==◌, IfDone, IfDone-bind, IfDone-mono, IfDone-last, Bool-cases,
  Option-cases, arith,
}
use rpc_bench.Kernel.{Kernel, Reply, ctl_mod}
use rpc_bench.Kernel.Laws.{Stream, InterestList, Reply-cases, would_block}
use rpc_bench.Kernel.Apart.{Spares, Apart, Spares-refl, Spares-trans}
use rpc_bench.Heap.{Heap, Holds, store, load}
use rpc_bench.Socket.{get_sock_error}
use rpc_bench.Socket.Transfer.{Process, recv_at, send_at, recv_all}
use rpc_bench.Poll.{Interest}
use rpc_bench.Poll.Selector.{reregister, event_of}

-- A store changes the block of its pointer alone.
pub store-Spared :
    (h : Heap) (ptr : Option ℕ) (off : ℕ) (bytes : List ℕ)
    → IfDone
        (λ h'.
          ((b : ℕ) (block : List ℕ) → ptr ≢ some b → Holds h b block → Holds h' b block)
          × (h'.fresh ≡ h.fresh))
        (store h ptr off bytes)
unfolding store
store-Spared h none off bytes = tt
store-Spared h (some a) off bytes = elim (Option-cases (h.blocks a)) [
  | inl e ↦ rw (e, store) tt
  | inr (old, e) ↦ elim (Bool-cases (leb (off + length bytes) (length old))) [
    | inl fits ↦
        rw (e, store) (rw fits (λ b block ne (held, lt). (ground (arith, ne, held), lt), refl))
    | inr long ↦ rw (e, store) (rw long tt)
  ]
]

module _ (K : Kernel) (S : Stream K) (L : InterestList K) (A : Apart K S L) where
  open K use {World, recv, send, epoll_ctl, getsockopt}
  open A use {recv_apart, send_apart, ctl_apart, getsockopt_apart}

  pub get_sock_error-Spares :
      (w : World) (fd : ℤ) → IfDone (λ r. Spares K S L fd w r.1) (get_sock_error K w fd)
  unfolding get_sock_error
  get_sock_error-Spares w fd = elim (Reply-cases (getsockopt w fd 4).0) [
    | inl (code, e) ↦ rw (e, get_sock_error) (getsockopt_apart w fd 4)
    | inr (errno, e) ↦ rw (e, get_sock_error) tt
  ]

  pub reregister-Spares :
      (w : World) (epfd fd : ℤ) (token : ℕ) (i : Interest)
      → IfDone (Spares K S L fd w) (reregister K w epfd fd token i)
  unfolding reregister
  reregister-Spares w epfd fd token i =
      let ev = event_of K token i in
      elim (Reply-cases (epoll_ctl w epfd ctl_mod fd (some ev)).0) [
        | inl (ok, e) ↦ rw (e, reregister) (ctl_apart w epfd ctl_mod fd (some ev))
        | inr (errno, e) ↦ rw (e, reregister) tt
      ]

  -- What is called on `fd` after the world moved on from `w` to `w₁`.
  Spares-after :
      {B : Type 0} (fd : ℤ) (w w₁ : World) (m : Outcome (B × World))
      → Spares K S L fd w w₁
      → IfDone (λ r. Spares K S L fd w₁ r.1) m
      → IfDone (λ r. Spares K S L fd w r.1) m
  Spares-after fd w w₁ m before h =
      IfDone-mono _ _ m h (λ r after. Spares-trans K S L fd w w₁ r.1 before after)

  pub recv_all-Spares :
      (fuel : ℕ) (w : World) (fd : ℤ) (len : ℕ) (cbuf : List ℕ)
      → IfDone (λ r. Spares K S L fd w r.1) (recv_all K fuel w fd len cbuf)
  unfolding recv_all
  recv_all-Spares zero w fd len cbuf = tt
  recv_all-Spares (suc fuel) w fd len cbuf =
      let n = len - length cbuf in
      let once = recv_apart w fd n in
      elim (Bool-cases (ltb (length cbuf) len)) [
        | inr full ↦ rw (full, recv_all) (Spares-refl K S L fd w)
        | inl room ↦
            rw (room, recv_all)
              (elim (Reply-cases (recv w fd n).0) [
                | inr (errno, e) ↦
                    rw (e, recv_all)
                      (elim (Bool-cases (would_block errno)) [
                        | inl again ↦
                            rw (again, recv_all)
                              (Spares-after fd w (recv w fd n).1 _ once
                                (recv_all-Spares fuel (recv w fd n).1 fd len cbuf))
                        | inr hard ↦
                            rw (hard, recv_all)
                              (IfDone-bind (λ code. Spares K S L fd w code.1)
                                (λ r. Spares K S L fd w r.1) _ (λ code. done (cbuf, code.1))
                                (Spares-after fd w (recv w fd n).1 _ once
                                  (get_sock_error-Spares (recv w fd n).1 fd))
                                (λ code h. h))
                      ])
                | inl (bytes, e) ↦
                    rw (e, recv_all)
                      (elim (Bool-cases (length bytes == 0)) [
                        | inl over ↦ rw (over, recv_all) once
                        | inr more ↦
                            rw (more, recv_all)
                              (Spares-after fd w (recv w fd n).1 _ once
                                (recv_all-Spares fuel (recv w fd n).1 fd len (cbuf ++ bytes)))
                      ])
              ])
      ]

  -- Recv and Send at a pointer: the other sockets, and the blocks that the pointer is not on.
  pub record Reached (fd : ℤ) (ptr : Option ℕ) (p q : Process World) : Type 0 where
    pub spared : Spares K S L fd p.world q.world
    pub kept : (b : ℕ) (block : List ℕ) → ptr ≢ some b → Holds p.heap b block → Holds q.heap b block
    pub same_fresh : q.heap.fresh ≡ p.heap.fresh

  pub recv_at-Reached :
      (p : Process World) (fd : ℤ) (ptr : Option ℕ) (off len : ℕ)
      → IfDone (λ r. Reached fd ptr p r.1) (recv_at K p fd ptr off len)
  unfolding recv_at
  recv_at-Reached p fd ptr off len = elim (Reply-cases (recv p.world fd len).0) [
    | inr (errno, e) ↦
        rw (e, recv_at)
          (record {
            spared = recv_apart p.world fd len;
            kept = λ b block ne h. h;
            same_fresh = refl;
          })
    | inl (bytes, e) ↦
        rw (e, recv_at)
          (IfDone-bind
            (λ h'.
              ((b : ℕ) (block : List ℕ) → ptr ≢ some b → Holds p.heap b block → Holds h' b block)
              × (h'.fresh ≡ p.heap.fresh))
            (λ (r : Reply ℕ × Process World). Reached fd ptr p r.1) (store p.heap ptr off bytes) _
            (store-Spared p.heap ptr off bytes)
            (λ h' (kept, fresh). record {
              spared = recv_apart p.world fd len;
              kept = kept;
              same_fresh = fresh;
            }))
  ]

  pub send_at-Reached :
      (p : Process World) (fd : ℤ) (ptr : Option ℕ) (off len : ℕ)
      → IfDone (λ r. Reached fd none p r.1) (send_at K p fd ptr off len)
  unfolding send_at
  send_at-Reached p fd ptr off len =
      IfDone-last {A = List ℕ} (λ (r : Reply ℕ × Process World). Reached fd none p r.1)
        (load p.heap ptr off len)
        (λ bytes. ((send p.world fd bytes).0, record p { world = (send p.world fd bytes).1 }))
        (λ bytes. record {
          spared = send_apart p.world fd bytes;
          kept = λ b block ne h. h;
          same_fresh = refl;
        })
