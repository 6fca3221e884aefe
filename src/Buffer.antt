-- ===== src/Buffer.antt =====
-- class Buffer of src/socket/buffer.h. Its `ptr_` points into the heap of Heap.antt.
pub mod Laws
use rpc_bench.Common.{
  ℕ, ◌+◌, ◌-◌, ◌%◌, ◌^◌, Bool, true, false, List, Option, none, some, Outcome, done, fatal, Cause,
  check, ◌>>=◌, ◌>>◌, require, leb, ◌==◌,
}
use rpc_bench.Heap.{Heap, alloc, free, store, load}
use rpc_bench.Kernel.{Kernel}

pub record Buffer : Type 0 where
  pub ptr : Option ℕ
  pub size : ℕ  -- size_t
  pub msg_length : ℕ  -- uint32_t
  pub bytes_handled : ℕ  -- uint32_t
  pub is_owner : Bool

-- Buffer().
unfoldable pub empty : Buffer
empty = record { ptr = none; size = 0; msg_length = 0; bytes_handled = 0; is_owner = false }

-- Buffer(size_t size): a new block of its own; RPC_CHECK_EQ(rc, 0) aborts when there is no memory.
unfoldable pub allocate : (K : Kernel) → Kernel.World K → Heap → ℕ → Outcome (Buffer × Heap)
allocate K w h size = elim (Kernel.memalign K w size) [
  | none ↦ fatal check
  | some block ↦ done (
    record { ptr = some h.fresh; size = size; msg_length = 0; bytes_handled = 0; is_owner = true },
    alloc h block,
  )
]

-- Buffer(void* ptr, size_t size, uint32_t msg_length): memory of somebody else.
unfoldable pub wrap : Option ℕ → ℕ → ℕ → Buffer
wrap ptr size msg_length = record {
  ptr = ptr;
  size = size;
  msg_length = msg_length;
  bytes_handled = 0;
  is_owner = false;
}

-- Buffer(Buffer* buffer): a view on the memory of `buffer`.
unfoldable pub view : Buffer → Buffer
unfolding wrap
view b = wrap b.ptr b.size b.msg_length

-- ~Buffer().
unfoldable pub destroy : Heap → Buffer → Heap
destroy h b = release b.is_owner b.ptr
  where
    release : Bool → Option ℕ → Heap
    release true (some a) = free h a
    release true none = h
    release false p = h

-- GetRemainSize(), in uint32_t.
unfoldable pub get_remain_size : Buffer → ℕ
get_remain_size b = (b.msg_length + 2 ^ 32 - b.bytes_handled) % 2 ^ 32

unfoldable pub is_clear : Buffer → Bool
is_clear b = b.msg_length == b.bytes_handled

-- MarkHandled(size_t nbytes); the sum is cut to uint32_t.
unfoldable pub mark_handled : ℕ → Buffer → Buffer
mark_handled n b = record b { bytes_handled = (b.bytes_handled + n) % 2 ^ 32 }

unfoldable pub set_msg_length : ℕ → Buffer → Buffer
set_msg_length n b = record b { msg_length = n }

-- CopyFrom(Buffer* other): what `other` holds is copied to the start of this buffer's memory.
unfoldable pub copy_from : Heap → Buffer → Buffer → Outcome (Buffer × Heap)
copy_from h b other = do
  require (leb other.msg_length b.size) check
  bytes ← load h other.ptr 0 other.msg_length
  h' ← store h b.ptr 0 bytes
  done (record b { msg_length = other.msg_length }, h')
