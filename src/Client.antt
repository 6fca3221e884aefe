-- ===== src/Client.antt =====
-- The client of the bandwidth application over TCP: the structs and BwClientApp::Run of
-- src/bw_app.{h,cc}, and SocketBwClientApp of src/socket/socket_bw_app.{h,cc}. The protobuf message that
-- the build generates is a parameter.
pub mod Wire
pub mod Totals
pub mod Pushing
use rpc_bench.Common.{
  ℕ, zero, suc, ◌+◌, ◌*◌, ◌/◌, ◌%◌, ◌^◌, ◌-◌, ℤ, Bool, true, false, List, [], ◌∷◌, ◌++◌, length,
  Option, none, some, Outcome, done, fault, hung, check, ◌>>=◌, ◌>>◌, require, ltb, leb, ◌==◌,
  if◌then◌else◌,
}
use rpc_bench.Kernel.{Kernel}
use rpc_bench.Meter.{Meter, add_bytes}
use rpc_bench.Socket.{AddrInfo, create, connect_socket, set_non_block}
use rpc_bench.Socket.Transfer.{send_all, recv_all}

-- `field3` is its bytes.
pub record BwHeader : Type 0 where
  pub field1 : ℕ
  pub field2 : Bool
  pub field3 : List ℕ

pub record BwMessage : Type 0 where
  pub header : BwHeader
  pub content : List ℕ

-- BwHeader::Size and BwMessage::Size, in size_t.
unfoldable pub header_size : BwHeader → ℕ
header_size h = (4 + 1 + length h.field3) % 2 ^ 64

unfoldable pub message_size : BwMessage → ℕ
message_size m = (header_size m.header + length m.content) % 2 ^ 64

-- `header` is what the caller left there when the call was no success.
pub record BwAck : Type 0 where
  pub header : BwHeader
  pub success : Bool

-- The generated class PbBwHeader.
pub record PbBwHeader : Type 1 where
  pub Pb : Type 0
  pub fresh : Pb
  pub set_field1 : ℕ → Pb → Pb
  pub set_field2 : Bool → Pb → Pb
  pub set_field3 : List ℕ → Pb → Pb
  pub field1 : Pb → ℕ
  pub field2 : Pb → Bool
  pub field3 : Pb → List ℕ
  -- SerializeToArray, and ParseFromArray over an old message.
  pub serialize : Pb → List ℕ
  pub parse : List ℕ → Pb → Pb

module _ (G : PbBwHeader) where
  open G use {Pb}

  unfoldable pub pack : BwHeader → Pb → Pb
  pack h pb = G.set_field3 h.field3 (G.set_field2 h.field2 (G.set_field1 h.field1 pb))

  unfoldable pub unpack : Pb → BwHeader
  unpack pb = record { field1 = G.field1 pb; field2 = G.field2 pb; field3 = G.field3 pb }

-- A size_t stored as a uint32_t, the lowest byte first.
unfoldable pub encode_u32 : ℕ → List ℕ
encode_u32 n = n % 256 ∷ n / 256 % 256 ∷ n / 65536 % 256 ∷ n / 16777216 % 256 ∷ []

-- The first `header_size + meta_size` bytes of `send_buffer_`.
unfoldable pub first_part : List ℕ → List ℕ → List ℕ
first_part header content = encode_u32 (length header) ++ (encode_u32 (length content) ++ header)

module _ (G : PbBwHeader) (K : Kernel) where
  open K use {World}

  -- The connected socket's part of Init(), where connect is tried with fuel.
  connect_loop : ℕ → World → ℤ → AddrInfo → Outcome World
  connect_loop zero w fd ai = hung
  connect_loop (suc fuel) w fd ai = elim (connect_socket K w fd ai).0 [
    | true ↦ done (connect_socket K w fd ai).1
    | false ↦ connect_loop fuel (connect_socket K w fd ai).1 fd ai
  ]

  unfoldable pub init : ℕ → World → AddrInfo → Outcome (ℤ × World)
  unfolding connect_loop
  init fuel w ai = do
    created ← create K w ai
    w' ← connect_loop fuel created.1 created.0 ai
    w'' ← set_non_block K w' created.0 true
    done (created.0, w'')

  -- PushData; `ack` is what `*bw_ack` holds before.
  unfoldable pub push_data : ℕ → World → ℤ → BwMessage → BwAck → Outcome (BwAck × World)
  push_data fuel w fd m ack = do
    let pb = pack G m.header G.fresh
    let header = G.serialize pb
    elim (leb (length header + 8) 4_194_304) [ true ↦ done tt | false ↦ fault ]
    sent ← send_all K fuel w fd (first_part header m.content) 0
    require (length header + 8 == sent.0) check
    sent' ← send_all K fuel sent.1 fd m.content 0
    require (length m.content == sent'.0) check
    r ← recv_all K fuel sent'.1 fd (length header) []
    elim (ltb (length r.0) (length header)) [
      | true ↦ done (record ack { success = false }, r.1)
      | false ↦ done (record { header = unpack G (G.parse r.0 pb); success = true }, r.1)
    ]

-- BwClientApp::Run over the rounds of its loop: whether PushData was a success, the clock in
-- AddBytes, and the clock after it.
pub record Round : Type 0 where
  pub success : Bool
  pub metered_at : ℕ
  pub now : ℕ

-- total_bytes and meter_.
abbrev pub Tally : Type 0
Tally = ℕ × Meter

unfoldable pub count_round : ℕ → Round → Tally → Tally
count_round size r (total, meter) =
    if r.success
    then ((total + size) % 2 ^ 64, (add_bytes r.metered_at size meter).1)
    else (total, meter)

-- The tally when the time is over; `none` while it is not.
unfoldable pub run : ℕ → ℕ → ℕ → List Round → Tally → Option Tally
run start time_dura size [] tally = none
run start time_dura size (r ∷ rest) tally =
    let later = run start time_dura size rest (count_round size r tally) in
    if ltb (start + time_dura) r.now then some (count_round size r tally) else later
