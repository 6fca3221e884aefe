-- ===== src/Kernel/Apart.antt =====
-- Calls on one socket leave the data and the registration of the others alone, as hypotheses for the
-- theorems on several connections.
use rpc_bench.Common.{ℕ, ℤ, ◌≡◌, ◌≢◌, ◌≤◌, ◌∙◌, refl, List, [], Option, arith}
use rpc_bench.Kernel.{Kernel, CtlOp, EpollEvent, got, accept, fcntl_getfl, fcntl_setfl, close}
use rpc_bench.Kernel.Laws.{Stream, InterestList}

module _ (K : Kernel) (S : Stream K) (L : InterestList K) where
  open K use {World, recv, send, epoll_ctl, getsockopt, getpeername, call}
  open S use {incoming, sent, patience}
  open L use {registered}

  -- Socket `s` is in `w'` as it was in `w`; the delays to come may be fewer.
  pub record Same (s : ℤ) (w w' : World) : Type 0 where
    pub incoming_kept : incoming w' s ≡ incoming w s
    pub sent_kept : sent w' s ≡ sent w s
    pub registered_kept : (epfd : ℤ) → registered w' epfd s ≡ registered w epfd s
    pub calmer : patience w' s ≤ patience w s

  -- Every socket but `fd` is as it was.
  abbrev pub Spares : ℤ → World → World → Type 0
  Spares fd w w' = (s : ℤ) → s ≢ fd → Same s w w'

  pub record Apart : Type 0 where
    pub recv_apart : (w : World) (fd : ℤ) (n : ℕ) → Spares fd w (recv w fd n).1
    pub send_apart : (w : World) (fd : ℤ) (bs : List ℕ) → Spares fd w (send w fd bs).1
    pub ctl_apart :
        (w : World) (epfd : ℤ) (op : CtlOp) (fd : ℤ) (ev : Option EpollEvent)
        → Spares fd w (epoll_ctl w epfd op fd ev).1
    pub getsockopt_apart : (w : World) (fd : ℤ) (name : ℕ) → Spares fd w (getsockopt w fd name).1
    pub close_apart : (w : World) (fd : ℤ) → Spares fd w (call w (close fd)).1

  -- accept(2) gives a new socket and leaves the others alone; getpeername(2) and fcntl(2) change no
  -- socket's data or registration.
  pub record Accepts : Type 0 where
    pub accept_apart :
        (w : World) (fd new : ℤ)
        → (call w (accept fd)).0 ≡ got new
        → Spares new w (call w (accept fd)).1
    pub accept_unsent :
        (w : World) (fd new : ℤ)
        → (call w (accept fd)).0 ≡ got new
        → sent (call w (accept fd)).1 new ≡ []
    pub getpeername_same : (w : World) (fd s : ℤ) → Same s w (getpeername w fd).1
    pub getfl_same : (w : World) (fd s : ℤ) → Same s w (call w (fcntl_getfl fd)).1
    pub setfl_same :
        (w : World) (fd : ℤ) (flags : ℕ) (s : ℤ) → Same s w (call w (fcntl_setfl fd flags)).1

  pub Same-trans : (s : ℤ) (w w₁ w₂ : World) → Same s w w₁ → Same s w₁ w₂ → Same s w w₂
  Same-trans s w w₁ w₂ first second = record {
    incoming_kept = second.incoming_kept ∙ first.incoming_kept;
    sent_kept = second.sent_kept ∙ first.sent_kept;
    registered_kept = λ epfd. second.registered_kept epfd ∙ first.registered_kept epfd;
    calmer = omega (arith, first.calmer, second.calmer);
  }

  pub Spares-refl : (fd : ℤ) (w : World) → Spares fd w w
  Spares-refl fd w s ne = record {
    incoming_kept = refl;
    sent_kept = refl;
    registered_kept = λ epfd. refl;
    calmer = omega arith;
  }

  pub Spares-trans : (fd : ℤ) (w w₁ w₂ : World) → Spares fd w w₁ → Spares fd w₁ w₂ → Spares fd w w₂
  Spares-trans fd w w₁ w₂ a b s ne = Same-trans s w w₁ w₂ (a s ne) (b s ne)
