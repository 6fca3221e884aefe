-- ===== src/Tests/Parts.antt =====
-- The theorems on buffers, interests and the socket at concrete inputs.
use rpc_bench.Common.{
  ℕ, zero, suc, ◌+◌, take, ◌≡◌, refl, ◌↔◌, List, [], ◌∷◌, Option, some, true, ◌&&◌, ◌||◌, not, done,
  Post, arith,
}
use rpc_bench.Kernel.Script.{script, script_stream, script_interests}
use rpc_bench.Buffer.{Buffer, get_remain_size, is_clear, mark_handled}
use rpc_bench.Buffer.Laws.{IsValid, mark_handled-IsValid, copy_from-Holds}
use rpc_bench.Poll.Bits.{Joins}
use rpc_bench.Socket.Growth.{Unread, GrownTo}
use rpc_bench.Socket.Streams.{AllAccepted, recv_all-Grown, send_all-AllAccepted}
use rpc_bench.Socket.Transfer.{recv_all, send_all}
use rpc_bench.Poll.{
  Interest, add, remove, add_assign, interest_to_epoll, has, epollin, epollout, epollrdhup,
  is_readable, is_writable,
}
use rpc_bench.Heap.{Heap, Holds}
use rpc_bench.Buffer.{copy_from}
use rpc_bench.Poll.Bits.{add-remove-Joins, interest_to_epoll_flags}
use rpc_bench.Tests.Data.{socket_5, frame, wire}

recv_all-Grown_example :
    Post
      (Unread script)
      (GrownTo script script_stream script_interests wire socket_5 8 [])
      (recv_all script 11 wire socket_5 8 [])
recv_all-Grown_example =
    recv_all-Grown script script_stream script_interests 11 wire socket_5 8 [] (omega arith)
      (omega arith)

send_all-AllAccepted_example :
    Post
      (Unread script)
      (AllAccepted script script_stream script_interests wire socket_5 frame)
      (send_all script 14 wire socket_5 frame 0)
send_all-AllAccepted_example =
    send_all-AllAccepted script script_stream script_interests 14 wire wire socket_5 frame 0
      (record { within = omega arith; out = refl; unread = refl; calmer = omega arith })
      (omega arith)

-- Ten bytes, of which three are handled.
abbrev ten_bytes : Buffer
ten_bytes = record { ptr = some 0; size = 16; msg_length = 10; bytes_handled = 3; is_owner = true }

mark_handled-IsValid_example :
    IsValid (mark_handled 7 ten_bytes)
    × (get_remain_size (mark_handled 7 ten_bytes) + 7 ≡ get_remain_size ten_bytes)
    × ((is_clear (mark_handled 7 ten_bytes) ≡ true) ↔ (7 ≡ get_remain_size ten_bytes))
unfolding get_remain_size
mark_handled-IsValid_example =
    mark_handled-IsValid ten_bytes 7 (record { within = omega arith; fits = omega arith })
      (omega arith)

-- Two blocks, and an owner of the first.
abbrev two_blocks : ℕ → Option (List ℕ)
two_blocks zero = some (0 ∷ 0 ∷ 0 ∷ [])
two_blocks (suc n) = some (8 ∷ 9 ∷ [])

abbrev two_block_heap : Heap
two_block_heap = record { blocks = two_blocks; fresh = 2 }

abbrev target : Buffer
target = record { ptr = some 0; size = 3; msg_length = 0; bytes_handled = 0; is_owner = true }

abbrev origin : Buffer
origin = record { ptr = some 1; size = 2; msg_length = 2; bytes_handled = 0; is_owner = true }

copy_from-Holds_example :
    (h : Heap) × (block : List ℕ) × (copy_from two_block_heap target origin
      ≡ done (record target { msg_length = 2 }, h))
    × Holds h 0 block
    × Holds h 1 (8 ∷ 9 ∷ [])
    × (take 2 block ≡ 8 ∷ 9 ∷ [])
copy_from-Holds_example =
    copy_from-Holds two_block_heap target origin 0 1 (0 ∷ 0 ∷ 0 ∷ []) (8 ∷ 9 ∷ []) refl refl
      (omega arith) (refl, omega arith) (refl, omega arith) (omega arith) (omega arith)
      (omega arith)

abbrev both : Interest
both = record { inner = 3 }

abbrev write_only : Interest
write_only = record { inner = 2 }

add-remove-Joins_example :
    (add both write_only ≡ done (add_assign both write_only))
    × Joins (λ a b. a || b) both write_only (add_assign both write_only)
    × ((k : Interest) × (remove both write_only ≡ done k)
        × Joins (λ a b. a && not b) both write_only k)
add-remove-Joins_example = add-remove-Joins both write_only (omega arith) (omega arith)

interest_to_epoll_flags_example :
    (has (interest_to_epoll write_only) epollin ≡ is_readable write_only)
    × (has (interest_to_epoll write_only) epollrdhup ≡ is_readable write_only)
    × (has (interest_to_epoll write_only) epollout ≡ is_writable write_only)
interest_to_epoll_flags_example = interest_to_epoll_flags write_only (omega arith)
