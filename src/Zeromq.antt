-- ===== src/Zeromq.antt =====
-- The bandwidth application over ZeroMQ: src/zeromq/zeromq_bw_app.cc. The library is a parameter,
-- and so is the generated class. A message part has fewer bytes than an int can count, but the
-- conversions to int are written out. Messages that are closed and what is logged are left out.
pub mod Laws
pub mod Pushing
pub mod Serving
use rpc_bench.Common.{
  ℕ, zero, suc, ◌+◌, ◌-◌, ◌%◌, ◌^◌, ◌&&◌, Bool, true, false, List, [], ◌++◌, length, take, drop,
  Outcome, done, fault, hung, check, ◌>>=◌, ◌>>◌, require, ltb, leb, ◌==◌, if◌then◌else◌,
}
use rpc_bench.Kernel.{Reply, got, error}
use rpc_bench.Meter.{Meter, add_bytes}
use rpc_bench.Client.{BwHeader, BwMessage, BwAck, PbBwHeader, pack}

-- The calls on one socket. `error e` is a return of -1 with errno `e`.
pub record Zmq : Type 1 where
  pub World : Type 0
  -- zmq_msg_send(&msg, socket, flags), by the content of the message.
  pub msg_send : World → List ℕ → ℕ → Reply ℕ × World
  -- zmq_msg_recv(&msg, socket, 0): the content of the part, and zmq_msg_more after it.
  pub msg_recv : World → Reply (List ℕ) × World
  pub msg_more : World → Bool
  -- zmq_msg_init.
  pub msg_init : World → ℕ
  pub send : World → List ℕ → ℕ → Reply ℕ × World
  -- zmq_recv(socket, buf, len, 0): the size of the message, and what is written to the buffer.
  pub recv : World → ℕ → Reply (ℕ × List ℕ) × World
  -- The clock in AddBytes.
  pub clock : World → ℕ

abbrev pub dontwait : ℕ
dontwait = 1

abbrev pub sndmore : ℕ
sndmore = 2

-- A size_t compared with the int that a call returned.
unfoldable pub is_size : ℕ → Reply ℕ → Bool
is_size n (got k) = n == k
is_size n (error e) = n == 2 ^ 64 - 1

-- bytes_recv > 0, of a size as an int.
unfoldable pub is_positive : ℕ → Bool
is_positive n = ltb 0 (n % 2 ^ 32) && ltb (n % 2 ^ 32) (2 ^ 31)

-- The size that zmq_recv returned.
unfoldable pub message_length : Reply (ℕ × List ℕ) → Reply ℕ
message_length (got (n, bytes)) = got n
message_length (error e) = error e

-- SerializeToArray(buf, 100) over what stands in `buf`.
unfoldable pub serialize_to : List ℕ → List ℕ → List ℕ
serialize_to bytes buf = if leb (length bytes) 100 then bytes ++ drop (length bytes) buf else buf

-- A message of the first `n` bytes of `bytes`.
unfoldable pub init_data : ℕ → List ℕ → Outcome (List ℕ)
init_data n bytes = if leb n (length bytes) then done (take n bytes) else fault

-- ByteSizeLong of a header that is not packed.
unfoldable pub fresh_size : PbBwHeader → ℕ
fresh_size G = length (G.serialize G.fresh)

module _ (Z : Zmq) where
  open Z use {World, msg_send, msg_recv, msg_more, msg_init, send, recv, clock}

  -- while (true) { if (zmq_msg_send(...) == (int)size) break; ... }, with fuel. A message that was
  -- sent is empty.
  unfoldable pub send_part : ℕ → World → List ℕ → ℕ → ℕ → Outcome World
  send_part zero w msg size tag = hung
  send_part (suc fuel) w msg size tag = elim (msg_send w msg tag).0 [
    | error e ↦ send_part fuel (msg_send w msg tag).1 msg size tag
    | got n ↦ elim (n % 2 ^ 32 == size % 2 ^ 32) [
      | true ↦ done (msg_send w msg tag).1
      | false ↦ send_part fuel (msg_send w msg tag).1 [] size tag
    ]
  ]

  -- The loop over the parts of a request, with fuel: `part` is what `zmsg` holds.
  unfoldable pub recv_parts : ℕ → World → List ℕ → Meter → Outcome (List ℕ × (Meter × World))
  recv_parts zero w part meter = hung
  recv_parts (suc fuel) w part meter = elim (msg_recv w).0 [
    | error e ↦ elim (msg_more (msg_recv w).1) [
      | true ↦ recv_parts fuel (msg_recv w).1 part meter
      | false ↦ done (part, (meter, (msg_recv w).1))
    ]
    | got bytes ↦
        let meter' =
          if is_positive (length bytes)
          then (add_bytes (clock (msg_recv w).1) (length bytes) meter).1
          else meter in
        elim (msg_more (msg_recv w).1) [
          | true ↦ recv_parts fuel (msg_recv w).1 bytes meter'
          | false ↦ done (bytes, (meter', (msg_recv w).1))
        ]
  ]

  module _ (G : PbBwHeader) where
    unfoldable pub push_data_naive : World → BwMessage → BwAck → Outcome (BwAck × World)
    push_data_naive w m ack = do
      let (sent, w') = send w m.content 0
      require (is_size (length m.content) sent) check
      let (reply, w'') = recv w' (fresh_size G)
      require (is_size (fresh_size G) (message_length reply)) check
      done (record ack { success = true }, w'')

    -- PushDataZero, where `stale` stands in `header_buf` before.
    unfoldable pub push_data_zero : ℕ → World → List ℕ → BwMessage → BwAck → Outcome (BwAck × World)
    push_data_zero fuel w stale m ack = do
      let header_buf = serialize_to (G.serialize (pack G m.header G.fresh)) stale
      header_msg ← init_data (fresh_size G) header_buf
      w' ← send_part fuel w header_msg (fresh_size G) sndmore
      w'' ← send_part fuel w' m.content (length m.content) dontwait
      let (reply, w₃) = recv w'' (fresh_size G)
      require (is_size (fresh_size G) (message_length reply)) check
      done (record ack { success = true }, w₃)

    unfoldable pub zeromq_push_data :
        ℕ → World → List ℕ → BwMessage → BwAck → Outcome (BwAck × World)
    zeromq_push_data fuel w stale m ack = push_data_zero fuel w stale m ack

    -- A round of RunNaive, where `buffer` is recv_buffer.
    unfoldable pub serve_naive : World → List ℕ → Meter → Outcome (List ℕ × (Meter × World))
    serve_naive w buffer meter = do
      let (request, w') = recv w 1_048_576
      let (buffer', meter') = naive_request (clock w') request buffer meter
      reply ← init_data (fresh_size G) buffer'
      let (sent, w'') = send w' reply 0
      require (is_size (fresh_size G) sent) check
      done (buffer', (meter', w''))
      where
        naive_request : ℕ → Reply (ℕ × List ℕ) → List ℕ → Meter → List ℕ × Meter
        naive_request now (error e) buf m = (buf, m)
        naive_request now (got (n, bytes)) buf m =
            (bytes ++ drop (length bytes) buf, if is_positive n then (add_bytes now n m).1 else m)

    -- A round of RunZero: the reply is the beginning of the last part.
    unfoldable pub serve_zero : ℕ → World → Meter → Outcome (Meter × World)
    serve_zero fuel w meter = do
      require (msg_init w == 0) check
      (part, (meter', w')) ← recv_parts fuel w [] meter
      reply ← init_data (fresh_size G) part
      w'' ← send_part fuel w' reply (fresh_size G) dontwait
      done (meter', w'')
