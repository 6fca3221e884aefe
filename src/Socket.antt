-- ===== src/Socket.antt =====
-- classes Socket and TcpSocket of src/socket/socket.h. A socket is its `sockfd`; a method that
-- changes `sockfd` returns the new one.
pub mod Transfer
pub mod Growth
pub mod Streams
pub mod Spared
use rpc_bench.Common.{
  ℕ, ℤ, pos, negsuc, ◌==ℤ◌, ◌-◌, ◌^◌, Bool, true, false, not, List, Option, none, some, bit_and,
  bit_or, take, length, Outcome, done, fatal, Cause, check, pcheck, ◌>>=◌, ◌>>◌, require,
  if◌then◌else◌, ltb, ◌==◌,
}
use rpc_bench.Kernel.{
  Kernel, Reply, got, error, Syscall, socket, accept, connect, bind, listen, setsockopt,
  fcntl_getfl, fcntl_setfl, shutdown, close,
}

abbrev pub invalid_socket : ℤ
invalid_socket = negsuc 0

-- The values of Linux.
abbrev pub sol_socket : ℕ
sol_socket = 1

abbrev pub so_reuseaddr : ℕ
so_reuseaddr = 2

abbrev pub so_error : ℕ
so_error = 4

abbrev pub so_sndbuf : ℕ
so_sndbuf = 7

abbrev pub so_rcvbuf : ℕ
so_rcvbuf = 8

abbrev pub o_nonblock : ℕ
o_nonblock = 0x800

-- What AddrInfo holds of getaddrinfo's answer.
pub record AddrInfo : Type 0 where
  pub ai_family : ℕ
  pub ai_socktype : ℕ
  pub ai_protocol : ℕ
  pub ai_addr : List ℕ

unfoldable pub is_closed : ℤ → Bool
is_closed fd = fd ==ℤ invalid_socket

module _ (K : Kernel) where
  open K use {World, getsockopt, call}

  -- PCHECK(!call): the call returns 0. A positive return fails the check too.
  unfoldable pub zero_return : Reply ℤ × World → Outcome World
  zero_return (got (pos n), w) = if n == 0 then done w else fatal (pcheck 0)
  zero_return (got (negsuc n), w) = fatal (pcheck 0)
  zero_return (error e, w) = fatal (pcheck e)

  -- PCHECK(fd != INVALID_SOCKET).
  valid_socket : Reply ℤ × World → Outcome (ℤ × World)
  valid_socket (got fd, w) = if fd ==ℤ invalid_socket then fatal (pcheck 0) else done (fd, w)
  valid_socket (error e, w) = fatal (pcheck e)

  -- GetSockError.
  unfoldable pub get_sock_error : World → ℤ → Outcome (ℕ × World)
  get_sock_error w fd = answer (getsockopt w fd so_error)
    where
      answer : Reply ℕ × World → Outcome (ℕ × World)
      answer (got code, w') = done (code, w')
      answer (error e, w') = fatal (pcheck e)

  -- What the int `flags` holds after fcntl(F_GETFL); -1 is all ones.
  abbrev pub flags_of : Reply ℤ → ℕ
  flags_of (got (pos n)) = n
  flags_of (got (negsuc n)) = 2 ^ 32 - 1 - n
  flags_of (error e) = 2 ^ 32 - 1

  -- SetNonBlock: the answer of F_GETFL is not checked, that of F_SETFL is, against -1.
  unfoldable pub set_non_block : World → ℤ → Bool → Outcome World
  set_non_block w fd non_block =
      let (flags, w') = call w (fcntl_getfl fd) in
      let flags' =
        if non_block
        then bit_or (flags_of flags) o_nonblock
        else bit_and (flags_of flags) (2 ^ 32 - 1 - o_nonblock) in
      answer (call w' (fcntl_setfl fd flags'))
    where
      answer : Reply ℤ × World → Outcome World
      answer (got fd', w') = if fd' ==ℤ negsuc 0 then fatal (pcheck 0) else done w'
      answer (error e, w') = fatal (pcheck e)

  unfoldable pub set_reuse_addr : World → ℤ → Bool → Outcome World
  unfolding zero_return
  set_reuse_addr w fd reuse =
      zero_return (call w (setsockopt fd sol_socket so_reuseaddr (if reuse then 1 else 0)))

  unfoldable pub set_recv_buffer : World → ℤ → ℕ → Outcome World
  unfolding zero_return
  set_recv_buffer w fd bufsize = zero_return (call w (setsockopt fd sol_socket so_rcvbuf bufsize))

  unfoldable pub set_send_buffer : World → ℤ → ℕ → Outcome World
  unfolding zero_return
  set_send_buffer w fd bufsize = zero_return (call w (setsockopt fd sol_socket so_sndbuf bufsize))

  -- Close: CHECK_NE(sockfd, INVALID_SOCKET), and the answer of close(2) is ignored.
  unfoldable pub close_socket : World → ℤ → Outcome (ℤ × World)
  unfolding is_closed
  close_socket w fd = do
    require (not (is_closed fd)) check
    done (invalid_socket, (call w (close fd)).1)

  unfoldable pub shutdown_socket : World → ℤ → ℕ → Outcome World
  unfolding zero_return
  shutdown_socket w fd how = zero_return (call w (shutdown fd how))

  unfoldable pub bind_socket : World → ℤ → AddrInfo → Outcome World
  unfolding zero_return
  bind_socket w fd ai = zero_return (call w (bind fd ai.ai_addr))

  unfoldable pub try_bind : World → ℤ → AddrInfo → Bool × World
  try_bind w fd ai = let (r, w') = call w (bind fd ai.ai_addr) in (is_zero r, w')
    where
      is_zero : Reply ℤ → Bool
      is_zero (got fd') = fd' ==ℤ pos 0
      is_zero (error e) = false

  -- TcpSocket::Create(ai).
  unfoldable pub create : World → AddrInfo → Outcome (ℤ × World)
  unfolding valid_socket
  create w ai = valid_socket (call w (socket ai.ai_family ai.ai_socktype ai.ai_protocol))

  unfoldable pub listen_socket : World → ℤ → ℕ → Outcome World
  unfolding zero_return
  listen_socket w fd backlog = zero_return (call w (listen fd backlog))

  unfoldable pub accept_socket : World → ℤ → Outcome (ℤ × World)
  unfolding valid_socket
  accept_socket w fd = valid_socket (call w (accept fd))

  -- Connect(ai): the length passed is sizeof(struct sockaddr), whatever the address is.
  unfoldable pub connect_socket : World → ℤ → AddrInfo → Bool × World
  connect_socket w fd ai = let (r, w') = call w (connect fd (take 16 ai.ai_addr)) in (is_zero r, w')
    where
      is_zero : Reply ℤ → Bool
      is_zero (got fd') = fd' ==ℤ pos 0
      is_zero (error e) = false
