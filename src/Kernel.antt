-- ===== src/Kernel.antt =====
-- What the program takes from the operating system: a parameter of the model. `error e` is a
-- return of -1 with errno `e`.
pub mod Laws
pub mod Script
pub mod Prompt
pub mod Apart
pub mod Hosts
use rpc_bench.Common.{ℕ, ℤ, List, Option}

pub data Reply {ℓ} (A : Type ℓ) : Type ℓ where
  got : A → Reply A
  error : ℕ → Reply A

-- The operations of epoll_ctl(2).
pub data CtlOp : Type 0 where
  ctl_add ctl_mod ctl_del : CtlOp

-- struct epoll_event.
pub record EpollEvent : Type 0 where
  pub events : ℕ
  pub u64 : ℕ

-- The calls that return one int, by their arguments.
pub data Syscall : Type 0 where
  socket : ℕ → ℕ → ℕ → Syscall
  accept : ℤ → Syscall
  connect : ℤ → List ℕ → Syscall
  bind : ℤ → List ℕ → Syscall
  listen : ℤ → ℕ → Syscall
  setsockopt : ℤ → ℕ → ℕ → ℕ → Syscall
  fcntl_getfl : ℤ → Syscall
  fcntl_setfl : ℤ → ℕ → Syscall
  shutdown : ℤ → ℕ → Syscall
  epoll_create1 : ℕ → Syscall
  dup : ℤ → Syscall
  close : ℤ → Syscall

pub record Kernel : Type 1 where
  pub World : Type 0
  -- recv(fd, buf, len, 0): the bytes received.
  pub recv : World → ℤ → ℕ → Reply (List ℕ) × World
  -- send(fd, buf, len, 0): how many of these bytes were accepted.
  pub send : World → ℤ → List ℕ → Reply ℕ × World
  -- epoll_ctl(epfd, op, fd, event).
  pub epoll_ctl : World → ℤ → CtlOp → ℤ → Option EpollEvent → Reply (Unit {0}) × World
  -- epoll_wait(epfd, events, maxevents, timeout).
  pub epoll_wait : World → ℤ → ℕ → ℤ → Reply (List EpollEvent) × World
  -- getsockopt(fd, SOL_SOCKET, option).
  pub getsockopt : World → ℤ → ℕ → Reply ℕ × World
  pub getpeername : World → ℤ → Reply (List ℕ) × World
  pub call : World → Syscall → Reply ℤ × World
  -- posix_memalign(4096, size): the content of the new block; `none` is a nonzero return.
  pub memalign : World → ℕ → Option (List ℕ)
