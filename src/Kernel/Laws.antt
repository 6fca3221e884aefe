-- ===== src/Kernel/Laws.antt =====
-- Documented behaviour of the calls of recv(2), send(2), epoll_ctl(2) and posix_memalign(3), as
-- hypotheses for the theorems.
use rpc_bench.Common.{
  inl, inr, refl, ◌⊎◌, ℕ, ℤ, ◌≡◌, ◌≤◌, ◌<◌, List, [], ◌++◌, Option, none, some, Bool, length, take,
  ◌==◌, ◌||◌,
}
use rpc_bench.Kernel.{Kernel, Reply, got, error, CtlOp, ctl_add, ctl_mod, ctl_del, EpollEvent}

-- The values of Linux.
abbrev pub eagain : ℕ
eagain = 11

abbrev pub ewouldblock : ℕ
ewouldblock = 11

abbrev pub would_block : ℕ → Bool
would_block e = e == eagain || e == ewouldblock

abbrev pub bytes_of : Reply (List ℕ) → List ℕ
bytes_of (got bs) = bs
bytes_of (error e) = []

abbrev pub count_of : Reply ℕ → ℕ
count_of (got n) = n
count_of (error e) = 0

pub Reply-cases {ℓ} :
    {A : Type ℓ} (r : Reply A) → ((a : A) × (r ≡ got a)) ⊎ ((e : ℕ) × (r ≡ error e))
Reply-cases (got a) = inl (a, refl)
Reply-cases (error e) = inr (e, refl)

module _ (K : Kernel) where
  open K use {World, recv, send, epoll_ctl, getsockopt, memalign}

  -- A stream socket: what is still to be received is received in order, and what is accepted for
  -- sending is sent in order. Only a call that would block may be answered so again and again;
  -- `patience` bounds how often within one handler.
  pub record Stream : Type 0 where
    pub incoming : World → ℤ → List ℕ
    pub sent : World → ℤ → List ℕ
    pub patience : World → ℤ → ℕ
    pub recv_bound : (w : World) (fd : ℤ) (n : ℕ) → length (bytes_of (recv w fd n).0) ≤ n
    pub recv_incoming :
        (w : World) (fd : ℤ) (n : ℕ)
        → incoming w fd ≡ bytes_of (recv w fd n).0 ++ incoming (recv w fd n).1 fd
    pub recv_sent : (w : World) (fd : ℤ) (n : ℕ) → sent (recv w fd n).1 fd ≡ sent w fd
    pub recv_patience :
        (w : World) (fd : ℤ) (n e : ℕ)
        → (recv w fd n).0 ≡ error e
        → patience (recv w fd n).1 fd < patience w fd
    pub recv_patience_le :
        (w : World) (fd : ℤ) (n : ℕ) → patience (recv w fd n).1 fd ≤ patience w fd
    pub send_bound : (w : World) (fd : ℤ) (bs : List ℕ) → count_of (send w fd bs).0 ≤ length bs
    pub send_sent :
        (w : World) (fd : ℤ) (bs : List ℕ)
        → sent (send w fd bs).1 fd ≡ sent w fd ++ take (count_of (send w fd bs).0) bs
    pub send_incoming :
        (w : World) (fd : ℤ) (bs : List ℕ) → incoming (send w fd bs).1 fd ≡ incoming w fd
    pub send_progress :
        (w : World) (fd : ℤ) (bs : List ℕ) (n : ℕ)
        → 0 < length bs
        → (send w fd bs).0 ≡ got n
        → 0 < n
    pub send_patience :
        (w : World) (fd : ℤ) (bs : List ℕ) (e : ℕ)
        → (send w fd bs).0 ≡ error e
        → patience (send w fd bs).1 fd < patience w fd
    pub send_patience_le :
        (w : World) (fd : ℤ) (bs : List ℕ) → patience (send w fd bs).1 fd ≤ patience w fd
    pub ctl_incoming :
        (w : World) (epfd : ℤ) (op : CtlOp) (fd : ℤ) (ev : Option EpollEvent) (s : ℤ)
        → incoming (epoll_ctl w epfd op fd ev).1 s ≡ incoming w s
    pub ctl_sent :
        (w : World) (epfd : ℤ) (op : CtlOp) (fd : ℤ) (ev : Option EpollEvent) (s : ℤ)
        → sent (epoll_ctl w epfd op fd ev).1 s ≡ sent w s
    -- SO_ERROR is read without touching the data.
    pub getsockopt_incoming :
        (w : World) (fd : ℤ) (name : ℕ) (s : ℤ) → incoming (getsockopt w fd name).1 s ≡ incoming w s
    pub getsockopt_sent :
        (w : World) (fd : ℤ) (name : ℕ) (s : ℤ) → sent (getsockopt w fd name).1 s ≡ sent w s
    pub getsockopt_patience_le :
        (w : World) (fd : ℤ) (name : ℕ) → patience (getsockopt w fd name).1 fd ≤ patience w fd

  -- The interest list of an epoll instance.
  pub record InterestList : Type 0 where
    pub registered : World → ℤ → ℤ → Option EpollEvent
    -- EEXIST, ENOENT.
    pub mod_ok :
        (w : World) (epfd fd : ℤ) (old ev : EpollEvent)
        → registered w epfd fd ≡ some old
        → (epoll_ctl w epfd ctl_mod fd (some ev)).0 ≡ got tt
    pub mod_registered :
        (w : World) (epfd fd : ℤ) (ev : EpollEvent)
        → (epoll_ctl w epfd ctl_mod fd (some ev)).0 ≡ got tt
        → registered (epoll_ctl w epfd ctl_mod fd (some ev)).1 epfd fd ≡ some ev
    pub add_registered :
        (w : World) (epfd fd : ℤ) (ev : EpollEvent)
        → (epoll_ctl w epfd ctl_add fd (some ev)).0 ≡ got tt
        → registered (epoll_ctl w epfd ctl_add fd (some ev)).1 epfd fd ≡ some ev
    pub del_registered :
        (w : World) (epfd fd : ℤ)
        → (epoll_ctl w epfd ctl_del fd none).0 ≡ got tt
        → registered (epoll_ctl w epfd ctl_del fd none).1 epfd fd ≡ none
    pub recv_registered :
        (w : World) (fd : ℤ) (n : ℕ) (epfd s : ℤ)
        → registered (recv w fd n).1 epfd s ≡ registered w epfd s
    pub send_registered :
        (w : World) (fd : ℤ) (bs : List ℕ) (epfd s : ℤ)
        → registered (send w fd bs).1 epfd s ≡ registered w epfd s
    pub getsockopt_registered :
        (w : World) (fd : ℤ) (name : ℕ) (epfd s : ℤ)
        → registered (getsockopt w fd name).1 epfd s ≡ registered w epfd s

  pub record Memory : Type 0 where
    pub memalign_length :
        (w : World) (n : ℕ) (block : List ℕ) → memalign w n ≡ some block → length block ≡ n
