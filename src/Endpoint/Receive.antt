-- ===== src/Endpoint/Receive.antt =====
-- ReceiveMeta, ReceiveHeader, ReceiveData and OnRecvReady.
use rpc_bench.Common.{
  ℕ, ◌+◌, ◌*◌, List, [], ◌∷◌, Option, none, some, Bool, true, false, Outcome, done, pcheck, ◌>>=◌,
  ◌>>◌, require, deref, ltb, ◌==◌, length, if◌then◌else◌, drop,
}
use rpc_bench.Kernel.{Kernel, Reply, got, error}
use rpc_bench.Kernel.Laws.{would_block}
use rpc_bench.Heap.{Heap}
use rpc_bench.Buffer.{
  Buffer, allocate, view, set_msg_length, get_remain_size, is_clear, mark_handled,
}
use rpc_bench.Socket.Transfer.{recv_at, recv_all}
use rpc_bench.Endpoint.{
  Endpoint, State, new_rpc, meta_recved, header_recved, data_recved, replying, drop_buffer,
}
use rpc_bench.Endpoint.Send.{reply}

-- A uint32_t of `meta_buffer` as it lies in memory, the lowest byte first.
unfoldable pub decode_u32 : List ℕ → ℕ
decode_u32 [] = 0
decode_u32 (a ∷ []) = a
decode_u32 (a ∷ b ∷ []) = a + 256 * b
decode_u32 (a ∷ b ∷ c ∷ []) = a + 256 * (b + 256 * c)
decode_u32 (a ∷ b ∷ c ∷ d ∷ _) = a + 256 * (b + 256 * (c + 256 * d))

-- Whether an owner is missing or too small for `size` bytes.
unfoldable pub too_small : Option Buffer → ℕ → Bool
too_small none size = true
too_small (some b) size = ltb b.msg_length size

module _ (K : Kernel) where
  open K use {World}

  -- A new owner of `size` bytes where the old one is missing or too small.
  unfoldable pub ensure_owner : World → Heap → Option Buffer → ℕ → Outcome (Option Buffer × Heap)
  ensure_owner w h owner size = elim (too_small owner size) [
    | true ↦ do
      new ← allocate K w h size
      done (some (set_msg_length size new.0), drop_buffer new.1 owner)
    | false ↦ done (owner, h)
  ]

  -- ReceiveMeta after the meta header is read.
  unfoldable pub prepare : Endpoint World → ℕ → ℕ → Outcome (Bool × Endpoint World)
  prepare c header_size data_size = do
    header_owner ← ensure_owner c.process.world c.process.heap c.header_buffer_owner header_size
    data_owner ← ensure_owner c.process.world header_owner.1 c.data_buffer_owner data_size
    header ← deref header_owner.0
    content ← deref data_owner.0
    done (
      true,
      record c {
        process = record c.process {
          heap = drop_buffer (drop_buffer data_owner.1 c.header_buffer) c.data_buffer;
        };
        header_buffer_owner = header_owner.0;
        data_buffer_owner = data_owner.0;
        header_buffer = some (view header);
        data_buffer = some (view content);
        state = meta_recved;
      },
    )

  unfoldable pub receive_meta : ℕ → Endpoint World → Outcome (Bool × Endpoint World)
  receive_meta fuel c = do
    r ← recv_all K fuel c.process.world c.sock 8 []
    let c' = record c { process = record c.process { world = r.1 } }
    elim (ltb (length r.0) 8) [
      | true ↦ done (false, c')
      | false ↦ prepare c' (decode_u32 r.0) (decode_u32 (drop 4 r.0))
    ]

  -- What ReceiveHeader does with the answer of Recv.
  unfoldable pub header_answer : Endpoint World → Buffer → Reply ℕ → Outcome (Bool × Endpoint World)
  header_answer c buffer (error errno) = do
    require (would_block errno) (pcheck errno)
    done (is_clear buffer, c)
  header_answer c buffer (got n) =
      let buffer' = mark_handled n buffer in
      done (
        is_clear buffer',
        record c {
          header_buffer = some buffer';
          state = if is_clear buffer' then header_recved else c.state;
        },
      )

  unfoldable pub read_header : Endpoint World → Buffer → Outcome (Bool × Endpoint World)
  read_header c buffer = do
    r ← recv_at K c.process c.sock buffer.ptr buffer.bytes_handled (get_remain_size buffer)
    header_answer (record c { process = r.1 }) buffer r.0

  unfoldable pub receive_header : Endpoint World → Outcome (Bool × Endpoint World)
  receive_header c = do buffer ← deref c.header_buffer; read_header c buffer

  -- The data is complete: a view on the header is the reply.
  unfoldable pub data_complete : Endpoint World → Outcome (Endpoint World)
  data_complete c = do
    header ← deref c.header_buffer
    done (record c {
      state = data_recved;
      reply_buffer = some (view header);
      process = record c.process { heap = drop_buffer c.process.heap c.reply_buffer };
    })

  -- What ReceiveData does with the answer of Recv.
  unfoldable pub data_answer : Endpoint World → Buffer → Reply ℕ → Outcome (Bool × Endpoint World)
  data_answer c buffer (error errno) = do
    require (would_block errno) (pcheck errno)
    done (is_clear buffer, c)
  data_answer c buffer (got n) =
      let buffer' = mark_handled n buffer in
      let c' = record c { data_buffer = some buffer' } in
      elim (is_clear buffer') [
        | true ↦ do c'' ← data_complete c'; done (true, c'')
        | false ↦ done (false, c')
      ]

  unfoldable pub read_data : Endpoint World → Buffer → Outcome (Bool × Endpoint World)
  read_data c buffer = elim (buffer.size == 0) [
    | true ↦ do c' ← data_complete c; done (true, c')
    | false ↦ do
      r ← recv_at K c.process c.sock buffer.ptr buffer.bytes_handled (get_remain_size buffer)
      data_answer (record c { process = r.1 }) buffer r.0
  ]

  unfoldable pub receive_data : Endpoint World → Outcome (Bool × Endpoint World)
  receive_data c = do buffer ← deref c.data_buffer; read_data c buffer

  -- if (!step) break;
  unfoldable pub and_then :
      Outcome (Bool × Endpoint World)
      → (Endpoint World → Outcome (Endpoint World))
      → Outcome (Endpoint World)
  and_then step next = do r ← step; elim r.0 [ true ↦ next r.1 | false ↦ done r.1 ]

  unfoldable pub from_data_recved : ℕ → Endpoint World → Outcome (Endpoint World)
  from_data_recved fuel c = and_then (reply K fuel c) (λ c'. done c')

  unfoldable pub from_header_recved : ℕ → Endpoint World → Outcome (Endpoint World)
  from_header_recved fuel c = and_then (receive_data c) (from_data_recved fuel)

  unfoldable pub from_meta_recved : ℕ → Endpoint World → Outcome (Endpoint World)
  from_meta_recved fuel c = and_then (receive_header c) (from_header_recved fuel)

  unfoldable pub from_new_rpc : ℕ → Endpoint World → Outcome (Endpoint World)
  from_new_rpc fuel c = and_then (receive_meta fuel c) (from_meta_recved fuel)

  -- The switch of OnRecvReady.
  unfoldable pub dispatch : State → ℕ → Endpoint World → Outcome (Endpoint World)
  dispatch new_rpc fuel c = from_new_rpc fuel c
  dispatch meta_recved fuel c = from_meta_recved fuel c
  dispatch header_recved fuel c = from_header_recved fuel c
  dispatch data_recved fuel c = from_data_recved fuel c
  dispatch replying fuel c = done c

  unfoldable pub on_recv_ready : ℕ → Endpoint World → Outcome (Endpoint World)
  on_recv_ready fuel c = dispatch c.state fuel c
