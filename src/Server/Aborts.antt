-- ===== src/Server/Aborts.antt =====
-- The calls that end in a return or an abort, and in nothing else.
use rpc_bench.Common.{
  ℕ, List, Cause, check, pcheck, false, ℤ, negsuc, bit_or, ◌==ℤ◌, ◌≡◌, true, Option, Outcome, ◌>>=◌,
  Post, Post-bind, Bool-cases, inl, inr, ltb, length,
}
use rpc_bench.Kernel.{
  Kernel, Syscall, got, error, ctl_add, EpollEvent, accept, fcntl_getfl, fcntl_setfl,
}
use rpc_bench.Kernel.Laws.{Reply-cases}
use rpc_bench.Poll.Selector.{epoll_ctl_checked, register}
use rpc_bench.Socket.{
  flags_of, invalid_socket, is_closed, set_non_block, close_socket, accept_socket,
}
use rpc_bench.Endpoint.{Endpoint}
use rpc_bench.Endpoint.Handlers.{get_peer_addr, on_accepted, destroy_endpoint}

-- `m` returns with `Q`, or aborts.
abbrev pub Ends {ℓ} : {A : Type ℓ} → (A → Type 0) → Outcome A → Type 0
Ends Q m = Post (λ cause. Unit) Q m

pub Ends-bind {ℓ κ} :
    {A : Type ℓ} {B : Type κ} (P : A → Type 0) (Q : B → Type 0) (m : Outcome A) (f : A → Outcome B)
    → Ends P m
    → ((a : A) → P a → Ends Q (f a))
    → Ends Q (m >>= f)
Ends-bind P Q m f h k = Post-bind (λ cause. Unit) P Q m f h k

abbrev pub Any {ℓ} : {A : Type ℓ} → A → Type 0
Any a = Unit

-- Why HandleNewConnection may abort: a call on the new socket fails, or its peer has no address.
pub data Unaccepted (K : Kernel) : Cause → Type 0 where
  call_failed :
      (w : Kernel.World K) (c : Syscall) (e : ℕ)
      → (Kernel.call K w c).0 ≡ error e
      → Unaccepted K (pcheck e)
  call_invalid :
      (w : Kernel.World K) (c : Syscall) (n : ℤ)
      → (Kernel.call K w c).0 ≡ got n
      → (n ==ℤ negsuc 0) ≡ true
      → Unaccepted K (pcheck 0)
  no_peer :
      (w : Kernel.World K) (fd : ℤ) (e : ℕ)
      → (Kernel.getpeername K w fd).0 ≡ error e
      → Unaccepted K (pcheck e)
  nameless :
      (w : Kernel.World K) (fd : ℤ) (addr : List ℕ)
      → (Kernel.getpeername K w fd).0 ≡ got addr
      → ltb 0 (length addr) ≡ false
      → Unaccepted K check
  unregistered :
      (w : Kernel.World K) (epfd fd : ℤ) (ev : Option EpollEvent) (e : ℕ)
      → (Kernel.epoll_ctl K w epfd ctl_add fd ev).0 ≡ error e
      → Unaccepted K (pcheck e)

module _ (K : Kernel) where
  open K use {World, call, epoll_ctl, getpeername}

  -- `m` returns with `Q`, or aborts for one of these reasons.
  abbrev pub Admits {ℓ} : {A : Type ℓ} → (A → Type 0) → Outcome A → Type 0
  Admits Q m = Post (Unaccepted K) Q m

  pub register-Admits :
      (w : World) (epfd fd : ℤ) (ev : Option EpollEvent)
      → Admits Any (epoll_ctl_checked K w epfd ctl_add fd ev)
  unfolding epoll_ctl_checked
  register-Admits w epfd fd ev = elim (Reply-cases (epoll_ctl w epfd ctl_add fd ev).0) [
    | inl (ok, e) ↦ rw (e, epoll_ctl_checked) tt
    | inr (errno, e) ↦ rw (e, epoll_ctl_checked) (unregistered w epfd fd ev errno e)
  ]

  pub accept_socket-Admits : (w : World) (fd : ℤ) → Admits Any (accept_socket K w fd)
  unfolding accept_socket
  accept_socket-Admits w fd = elim (Reply-cases (call w (accept fd)).0) [
    | inl (new, e) ↦ elim (Bool-cases (new ==ℤ invalid_socket)) [
      | inl bad ↦ rw (e, accept_socket) (rw bad (call_invalid w (accept fd) new e bad))
      | inr good ↦ rw (e, accept_socket) (rw good tt)
    ]
    | inr (errno, e) ↦ rw (e, accept_socket) (call_failed w (accept fd) errno e)
  ]

  get_peer_addr-Admits : (c : Endpoint World) → Admits Any (get_peer_addr K c)
  unfolding get_peer_addr
  get_peer_addr-Admits c = elim (Reply-cases (getpeername c.process.world c.sock).0) [
    | inl (addr, e) ↦ elim (Bool-cases (ltb 0 (length addr))) [
      | inl full ↦ rw (e, get_peer_addr) (rw full tt)
      | inr empty ↦ rw (e, get_peer_addr) (rw empty (nameless c.process.world c.sock addr e empty))
    ]
    | inr (errno, e) ↦ rw (e, get_peer_addr) (no_peer c.process.world c.sock errno e)
  ]

  pub set_non_block-Admits : (w : World) (fd : ℤ) → Admits Any (set_non_block K w fd true)
  unfolding set_non_block
  set_non_block-Admits w fd =
      let w₁ = (call w (fcntl_getfl fd)).1 in
      let set = fcntl_setfl fd (bit_or (flags_of K (call w (fcntl_getfl fd)).0) 0x800) in
      elim (Reply-cases (call w₁ set).0) [
        | inl (r, e) ↦ elim (Bool-cases (r ==ℤ negsuc 0)) [
          | inl bad ↦ rw (e, set_non_block) (rw bad (call_invalid w₁ set r e bad))
          | inr good ↦ rw (e, set_non_block) (rw good tt)
        ]
        | inr (errno, e) ↦ rw (e, set_non_block) (call_failed w₁ set errno e)
      ]

  pub on_accepted-Admits : (c : Endpoint World) → Admits Any (on_accepted K c)
  unfolding on_accepted register
  on_accepted-Admits c =
      Post-bind (Unaccepted K) Any Any (get_peer_addr K c) _ (get_peer_addr-Admits c) (λ c' h.
        Post-bind (Unaccepted K) Any Any (set_non_block K c'.process.world c'.sock true) _
          (set_non_block-Admits c'.process.world c'.sock)
          (λ w h'.
            Post-bind (Unaccepted K) Any Any (register K w c'.epfd c'.sock c'.self c'.interest) _
              (register-Admits w c'.epfd c'.sock _) (λ w' h''. tt)))

  -- The destructor of an endpoint returns.
  pub destroy_endpoint-Admits : (c : Endpoint World) → Admits Any (destroy_endpoint K c)
  unfolding destroy_endpoint close_socket
  destroy_endpoint-Admits c = elim (Bool-cases (is_closed c.sock)) [
    | inl e ↦ rw (e, destroy_endpoint) tt
    | inr e ↦ rw (e, destroy_endpoint) (rw (e, close_socket) tt)
  ]
