-- ===== src/Endpoint/Frames.antt =====
-- One RPC on a connection, as the server's endpoint goes through it: eight bytes of meta header, a
-- header and the data come in, and the header goes out.
use rpc_bench.Common.{
  ℕ, ◌+◌, ◌-◌, arith, ◌≤◌, ◌<◌, ◌^◌, ◌≡◌, ◌≢◌, ◌⊎◌, ℤ, List, [], ◌∷◌, ◌++◌, Option, none, some,
  true, false, max, take, drop, length,
}
use rpc_bench.Kernel.{Kernel}
use rpc_bench.Kernel.Laws.{Stream, InterestList}
use rpc_bench.Heap.{Heap, Holds}
use rpc_bench.Buffer.{Buffer, get_remain_size, mark_handled}
use rpc_bench.Poll.{is_writable}
use rpc_bench.Poll.Bits.{IsValid}
use rpc_bench.Poll.Selector.{event_of}
use rpc_bench.Endpoint.{Endpoint, State, new_rpc, meta_recved, header_recved, data_recved, replying}
use rpc_bench.Endpoint.Receive.{decode_u32}

-- An owner of block `a`, and a view on it of which `k` bytes are handled.
abbrev pub owned : ℕ → ℕ → Buffer
owned a n = record { ptr = some a; size = n; msg_length = n; bytes_handled = 0; is_owner = true }

abbrev pub window : ℕ → ℕ → ℕ → Buffer
window a n k = record {
  ptr = some a;
  size = n;
  msg_length = n;
  bytes_handled = k;
  is_owner = false;
}

-- What remains of a view, and the view after a call that handled `n` bytes more.
pub get_remain_size-window :
    (a len k : ℕ) → k ≤ len → len < 2 ^ 32 → get_remain_size (window a len k) ≡ len - k
unfolding get_remain_size
get_remain_size-window a len k h fits = omega arith

pub mark_handled-window :
    (a len k n : ℕ) → k + n < 2 ^ 32 → mark_handled n (window a len k) ≡ window a len (k + n)
unfolding mark_handled
mark_handled-window a len k n fits = ground arith

-- What stays the same during one RPC: the socket, what was to be received and what had been sent
-- when it began, the meta header, the two blocks, and the sizes of the owners before it.
pub record Exchange : Type 0 where
  pub fd : ℤ
  pub input : List ℕ
  pub output : List ℕ
  pub meta : List ℕ
  pub header_block : ℕ
  pub data_block : ℕ
  pub old_header : ℕ
  pub old_data : ℕ

-- The buffers during an RPC: `i` bytes of the header block `hb` and `j` bytes of the data
-- block `db` are received.
pub record Held (g : Exchange) (hb db : List ℕ) (i j : ℕ) (heap : Heap)
    (header_owned data_owned header_seen data_seen : Option Buffer) : Type 0 where
  pub header_owner : header_owned ≡ some (owned g.header_block (length hb))
  pub data_owner : data_owned ≡ some (owned g.data_block (length db))
  pub header_view : header_seen ≡ some (window g.header_block (length hb) i)
  pub data_view : data_seen ≡ some (window g.data_block (length db) j)
  pub header_holds : Holds heap g.header_block hb
  pub data_holds : Holds heap g.data_block db
  pub distinct : g.header_block ≢ g.data_block
  pub header_fits : length hb < 2 ^ 32
  pub data_fits : length db < 2 ^ 32
  pub header_part : i ≤ length hb
  pub data_part : j ≤ length db

module _ (K : Kernel) (S : Stream K) (L : InterestList K) where
  open K use {World}
  open S use {incoming, sent}
  open L use {registered}

  -- The kernel's registration of the socket is the one that `interest_` says.
  pub record Linked (fd : ℤ) (c : Endpoint World) : Type 0 where
    pub on : c.sock ≡ fd
    pub known : registered c.process.world c.epfd c.sock ≡ some (event_of K c.self c.interest)
    pub valid : IsValid c.interest

  -- A point of the RPC: the state, the queue `tx`, the reply `rb`, and what went `out`.
  pub record During (g : Exchange) (st : State) (hb db : List ℕ) (i j : ℕ)
      (tx : List (Option Buffer)) (rb : Option Buffer) (out : List ℕ) (c : Endpoint World)
      : Type 0 where
    pub linked : Linked g.fd c
    pub held :
        Held g hb db i j c.process.heap c.header_buffer_owner c.data_buffer_owner c.header_buffer
          c.data_buffer
    pub state : c.state ≡ st
    pub queue : c.tx_queue ≡ tx
    pub reply_free : c.reply_buffer ≡ rb
    pub meta_length : length g.meta ≡ 8
    pub header_length : length hb ≡ max g.old_header (decode_u32 g.meta)
    pub data_length : length db ≡ max g.old_data (decode_u32 (drop 4 g.meta))
    pub stream : g.input ≡ g.meta ++ (take i hb ++ (take j db ++ incoming c.process.world c.sock))
    pub replied : sent c.process.world c.sock ≡ g.output ++ out

  -- The header or the data is not complete. The data begins when the header is complete, and
  -- META_RECVED may stay on only while no byte of the header is missing or asked for.
  pub record Partly (g : Exchange) (st : State) (hb db : List ℕ) (i j : ℕ) (c : Endpoint World)
      : Type 0 where
    pub during : During g st hb db i j [] none [] c
    pub in_order : (j ≡ 0) ⊎ (i ≡ length hb)
    pub data_missing : (j < length db) ⊎ (length db ≡ 0)
    pub header_missing : (st ≡ meta_recved) ⊎ ((st ≡ header_recved) × (i ≡ length hb))

  abbrev pub AtData : Exchange → List ℕ → List ℕ → Endpoint World → Type 0
  AtData g hb db =
      During g data_recved hb db (length hb) (length db) []
        (some (window g.header_block (length hb) 0)) []

  abbrev pub AtReply : Exchange → List ℕ → List ℕ → ℕ → Endpoint World → Type 0
  AtReply g hb db k =
      During g replying hb db (length hb) (length db)
        (some (window g.header_block (length hb) k) ∷ []) none (take k hb)

  abbrev pub Finished : Exchange → List ℕ → List ℕ → Endpoint World → Type 0
  Finished g hb db = During g new_rpc hb db (length hb) (length db) [] none hb

  -- The reply is out, or the rest of it waits for EPOLLOUT, which is registered.
  abbrev pub Answered : Exchange → List ℕ → List ℕ → Endpoint World → Type 0
  Answered g hb db c =
      Finished g hb db c
      ⊎ ((k : ℕ) × (k ≤ length hb) × AtReply g hb db k c × (is_writable c.interest ≡ true))
