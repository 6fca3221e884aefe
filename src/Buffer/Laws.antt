-- ===== src/Buffer/Laws.antt =====
-- Handling a buffer's bytes piece by piece, and copying from one buffer to another.
use rpc_bench.Common.{
  ℕ, ◌+◌, ◌^◌, ◌≤◌, ◌<◌, ◌≡◌, ◌≢◌, ◌↔◌, true, List, some, done, arith, length, take, length-take,
  write_at, take-write_at,
}
use rpc_bench.Heap.{Heap, Holds, store-Holds, load-Holds}
use rpc_bench.Buffer.{Buffer, get_remain_size, is_clear, mark_handled, copy_from}

-- The bytes handled are within the message, and the message within uint32_t.
pub record IsValid (b : Buffer) : Type 0 where
  pub within : b.bytes_handled ≤ b.msg_length
  pub fits : b.msg_length < 2 ^ 32

-- Handling at most what remains keeps a buffer valid, lowers the remaining size by exactly that
-- much, and the buffer is clear exactly when nothing remains.
pub mark_handled-IsValid :
    (b : Buffer) (n : ℕ)
    → IsValid b
    → n ≤ get_remain_size b
    → IsValid (mark_handled n b)
      × (get_remain_size (mark_handled n b) + n ≡ get_remain_size b)
      × ((is_clear (mark_handled n b) ≡ true) ↔ (n ≡ get_remain_size b))
unfolding get_remain_size is_clear mark_handled
mark_handled-IsValid b n v h = (
  record { within = ground arith; fits = v.fits },
  ground arith,
  (λ e. ground arith, λ e. ground arith),
)

-- With room for the message and memory of its own, `copy_from` succeeds: the destination takes
-- the source's message length and its block begins with the source's message, while the source's
-- block is unchanged.
pub copy_from-Holds :
    (h : Heap) (b other : Buffer) (dst src : ℕ) (old msg : List ℕ)
    → b.ptr ≡ some dst
    → other.ptr ≡ some src
    → src ≢ dst
    → Holds h dst old
    → Holds h src msg
    → b.size ≤ length old
    → other.msg_length ≤ b.size
    → other.msg_length ≤ length msg
    → (h' : Heap) × (block : List ℕ) × (copy_from h b other
        ≡ done (record b { msg_length = other.msg_length }, h'))
      × Holds h' dst block
      × Holds h' src msg
      × (take other.msg_length block ≡ take other.msg_length msg)
unfolding copy_from
copy_from-Holds h b other dst src old msg pb po ne hd hs room fits have =
    let bytes : List ℕ = take other.msg_length msg in
    let len : length bytes ≡ other.msg_length = omega (arith, length-take other.msg_length msg) in
    let (h', e, holds, others) = store-Holds h dst 0 bytes old hd (omega arith) in
    let prefix = take-write_at 0 bytes old (omega arith) in
    (
      h',
      write_at 0 bytes old,
      ground (arith, e, load-Holds h src 0 other.msg_length msg hs),
      holds,
      others src msg ne hs,
      ground (arith, prefix, len),
    )
