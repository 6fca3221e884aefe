-- ===== src/Poll.antt =====
-- src/socket/poll.h: interests, tokens, epoll events, and the registry over epoll.
-- The constants are those of <sys/epoll.h>.
pub mod Event
pub mod Bits
pub mod Selector
use rpc_bench.Common.{
  ℕ, ◌+◌, ◌-◌, ◌%◌, ◌^◌, Bool, not, ◌&&◌, ◌||◌, bit_and, bit_or, Outcome, done, check, ◌>>=◌, ◌>>◌,
  require, leb, ◌==◌, if◌then◌else◌,
}

-- class Interest; `inner_` is a uint8_t.
pub record Interest : Type 0 where
  pub inner : ℕ

abbrev pub readable : ℕ
readable = 1

abbrev pub writable : ℕ
writable = 2

-- Interest(uint8_t interest).
unfoldable pub interest : ℕ → Outcome Interest
interest n = do require (leb n (bit_or readable writable)) check; done (record { inner = n })

unfoldable pub is_readable : Interest → Bool
is_readable i = not (bit_and i.inner readable == 0)

unfoldable pub is_writable : Interest → Bool
is_writable i = not (bit_and i.inner writable == 0)

unfoldable pub add : Interest → Interest → Outcome Interest
unfolding interest
add i other = interest (bit_or i.inner other.inner)

-- `inner_ & ~other.inner_`, cut to a uint8_t.
unfoldable pub remove : Interest → Interest → Outcome Interest
unfolding interest
remove i other = interest (bit_and i.inner (2 ^ 8 - 1 - other.inner))

-- operator|=: no check.
unfoldable pub add_assign : Interest → Interest → Interest
add_assign i other = record { inner = bit_or i.inner other.inner }

abbrev pub epollin : ℕ
epollin = 0x1

abbrev pub epollout : ℕ
epollout = 0x4

abbrev pub epollerr : ℕ
epollerr = 0x8

abbrev pub epollhup : ℕ
epollhup = 0x10

abbrev pub epollrdhup : ℕ
epollrdhup = 0x2000

abbrev pub epollet : ℕ
epollet = 0x8000_0000

-- InterestToEpoll.
unfoldable pub interest_to_epoll : Interest → ℕ
unfolding is_readable is_writable
interest_to_epoll i =
    let kind = epollet in
    let kind' = if is_readable i then bit_or kind (bit_or epollin epollrdhup) else kind in
    if is_writable i then bit_or kind' epollout else kind'

-- `events & flag` as a condition.
abbrev pub has : ℕ → ℕ → Bool
has events flag = not (bit_and events flag == 0)
