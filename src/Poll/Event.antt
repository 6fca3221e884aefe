-- ===== src/Poll/Event.antt =====
-- class Event of src/socket/poll.h, a wrapper of epoll_event.
use rpc_bench.Common.{ℕ, Bool, ◌&&◌, ◌||◌}
use rpc_bench.Kernel.{EpollEvent}
use rpc_bench.Poll.{epollin, epollout, epollerr, epollhup, epollrdhup, has}

unfoldable pub token : EpollEvent → ℕ
token e = e.u64

unfoldable pub is_readable : EpollEvent → Bool
is_readable e = has e.events epollin

unfoldable pub is_writable : EpollEvent → Bool
is_writable e = has e.events epollout

unfoldable pub is_error : EpollEvent → Bool
is_error e = has e.events epollerr

unfoldable pub is_read_closed : EpollEvent → Bool
is_read_closed e = has e.events epollhup || (has e.events epollrdhup && has e.events epollin)

unfoldable pub is_write_closed : EpollEvent → Bool
is_write_closed e = has e.events epollhup || (has e.events epollout && has e.events epollerr)
