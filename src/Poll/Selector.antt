-- ===== src/Poll/Selector.antt =====
-- sys::linux::Selector, Registry and Poll of src/socket/poll.h: the calls of epoll. A Registry and
-- a Poll hold a Selector and nothing else, so they are its descriptor.
use rpc_bench.Common.{
  ℕ, List, ℤ, negsuc, pos, ◌==ℤ◌, Option, none, some, Outcome, done, fatal, pcheck, ◌>>=◌,
  if◌then◌else◌,
}
use rpc_bench.Kernel.{
  Kernel, Reply, got, error, CtlOp, ctl_add, ctl_mod, ctl_del, EpollEvent, epoll_create1, dup,
  close,
}
use rpc_bench.Poll.{Interest, interest_to_epoll}

-- INVALID_FD.
abbrev pub invalid_fd : ℤ
invalid_fd = negsuc 0

-- EPOLL_CLOEXEC.
abbrev pub epoll_cloexec : ℕ
epoll_cloexec = 0x8_0000

module _ (K : Kernel) where
  open K use {World, epoll_ctl, epoll_wait, call}

  -- PCHECK(fd >= 0) on the descriptor that a call returns.
  descriptor : Reply ℤ × World → Outcome (ℤ × World)
  descriptor (got (pos n), w) = done (pos n, w)
  descriptor (got (negsuc n), w) = fatal (pcheck 0)
  descriptor (error e, w) = fatal (pcheck e)

  -- Selector(), by Selector::Create().
  unfoldable pub create : World → Outcome (ℤ × World)
  unfolding descriptor
  create w = descriptor (call w (epoll_create1 epoll_cloexec))

  -- Selector(const Selector& other).
  unfoldable pub copy : World → ℤ → Outcome (ℤ × World)
  unfolding descriptor
  copy w epollfd = descriptor (call w (dup epollfd))

  -- ~Selector().
  unfoldable pub drop_selector : World → ℤ → World
  drop_selector w epollfd = if epollfd ==ℤ invalid_fd then w else (call w (close epollfd)).1

  -- EpollCtl: PCHECK that epoll_ctl returns 0.
  unfoldable pub epoll_ctl_checked : World → ℤ → CtlOp → ℤ → Option EpollEvent → Outcome World
  epoll_ctl_checked w epollfd op fd event = checked (epoll_ctl w epollfd op fd event)
    where
      checked : Reply (Unit {0}) × World → Outcome World
      checked (got _, w') = done w'
      checked (error e, w') = fatal (pcheck e)

  abbrev pub event_of : ℕ → Interest → EpollEvent
  event_of token interests = record { events = interest_to_epoll interests; u64 = token }

  unfoldable pub register : World → ℤ → ℤ → ℕ → Interest → Outcome World
  unfolding epoll_ctl_checked
  register w epollfd fd token interests =
      epoll_ctl_checked w epollfd ctl_add fd (some (event_of token interests))

  unfoldable pub reregister : World → ℤ → ℤ → ℕ → Interest → Outcome World
  unfolding epoll_ctl_checked
  reregister w epollfd fd token interests =
      epoll_ctl_checked w epollfd ctl_mod fd (some (event_of token interests))

  unfoldable pub deregister : World → ℤ → ℤ → Outcome World
  unfolding epoll_ctl_checked
  deregister w epollfd fd = epoll_ctl_checked w epollfd ctl_del fd none

  -- Select: no timeout is -1.
  unfoldable pub select : World → ℤ → ℕ → Option ℕ → Reply (List EpollEvent) × World
  select w epollfd maxevents timeout =
      epoll_wait w epollfd maxevents (elim timeout [ none ↦ negsuc 0 | some ms ↦ pos ms ])

  -- Poll::Create(): the registry and then the poll take their argument by value, so the
  -- selector is copied twice and each original is destroyed.
  unfoldable pub create_poll : World → Outcome (ℤ × World)
  unfolding create copy drop_selector
  create_poll w = do
    first ← create w
    second ← copy first.1 first.0
    let w' = drop_selector second.1 first.0
    third ← copy w' second.0
    done (third.0, drop_selector third.1 second.0)
