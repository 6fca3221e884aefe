-- ===== src/Bandwidth.antt =====
-- The bandwidth application over gRPC (src/grpc/grpc_bw_app.cc) and over brpc
-- (src/brpc/brpc_bw_app.cc), with PackPbBwMessage of src/bw_app.cc. The classes that the build
-- generates and the two libraries are parameters. A report of the meter is a value.
pub mod Echo
pub mod RoundTrip
use rpc_bench.Common.{
  ℕ, ◌+◌, ◌%◌, ◌^◌, ℤ, Bool, true, false, List, length, Option, Outcome, done, fatal, unimplemented,
  log_fatal, ◌>>=◌, ◌>>◌, require, ◌==◌, if◌then◌else◌,
}
use rpc_bench.Meter.{Meter, Report, add_bytes}
use rpc_bench.Client.{BwHeader, BwMessage, BwAck, PbBwHeader, pack, unpack}

-- The generated classes PbBwMessage and PbBwAck; `with_header` is a change through
-- mutable_header().
pub record PbMessages : Type 1 where
  pub header_class : PbBwHeader
  pub Message : Type 0
  pub Ack : Type 0
  pub fresh_message : Message
  pub fresh_ack : Ack
  pub header : Message → PbBwHeader.Pb header_class
  pub with_header : PbBwHeader.Pb header_class → Message → Message
  pub set_data : List ℕ → Message → Message
  pub byte_size : Message → ℕ
  pub ack_header : Ack → PbBwHeader.Pb header_class
  pub with_ack_header : PbBwHeader.Pb header_class → Ack → Ack

-- The stub's call: Status::ok() or !Controller::Failed(), and what it leaves in the reply.
abbrev pub Answer : PbMessages → Type 0
Answer P = Bool × PbMessages.Ack P

pub record GrpcStub (P : PbMessages) : Type 1 where
  pub World : Type 0
  pub call : World → PbMessages.Message P → PbMessages.Ack P → Answer P × World

-- A call over brpc has a log id and an attachment too.
pub record BrpcStub (P : PbMessages) : Type 1 where
  pub World : Type 0
  pub is_asked_to_quit : World → Bool
  pub call : World → ℕ → PbMessages.Message P → List ℕ → PbMessages.Ack P → Answer P × World

module _ (P : PbMessages) where
  open P use {header_class, Message, Ack}

  unfoldable pub pack_message : BwMessage → Message → Message
  pack_message m pb =
      P.set_data m.content (P.with_header (pack header_class m.header (P.header pb)) pb)

  -- What the client makes of the call's answer.
  unfoldable pub grpc_answer : Answer P → BwAck → BwAck
  grpc_answer (ok, reply) ack =
      if ok
      then record { header = unpack header_class (P.ack_header reply); success = true }
      else record ack { success = false }

  unfoldable pub grpc_push_data :
      (S : GrpcStub P) → GrpcStub.World S → BwMessage → BwAck → BwAck × GrpcStub.World S
  grpc_push_data S w m ack =
      let (answer, w') = GrpcStub.call S w (pack_message m P.fresh_message) P.fresh_ack in
      (grpc_answer answer ack, w')

  -- The reply of a handler: the header of the request, through a BwHeader.
  unfoldable pub echo_header : Message → Ack → Ack
  echo_header request reply =
      P.with_ack_header
        (pack header_class (unpack header_class (P.header request)) (P.ack_header reply)) reply

  -- BwServiceImpl::PushData at the time `now`, whose status is always OK.
  unfoldable pub grpc_handler : ℕ → Message → Ack → Meter → Answer P × (Option Report × Meter)
  grpc_handler now request reply meter =
      ((true, echo_header request reply), add_bytes now (P.byte_size request) meter)

  unfoldable pub brpc_answer : Answer P → BwAck → BwAck
  brpc_answer (ok, reply) ack =
      if ok
      then record { header = unpack header_class (P.ack_header reply); success = true }
      else record ack { success = false }

  -- The data is the attachment; `log_id` is log_id_, of 64 bits.
  unfoldable pub brpc_push_data :
      (S : BrpcStub P) → BrpcStub.World S → ℕ → BwMessage → BwAck → BwAck × (ℕ × BrpcStub.World S)
  brpc_push_data S w log_id m ack = elim (BrpcStub.is_asked_to_quit S w) [
    | true ↦ (record ack { success = false }, (log_id, w))
    | false ↦
        let request =
          P.with_header (pack header_class m.header (P.header P.fresh_message)) P.fresh_message in
        let (answer, w') = BrpcStub.call S w log_id request m.content P.fresh_ack in
        (brpc_answer answer ack, ((log_id + 1) % 2 ^ 64, w'))
  ]

  -- BwServiceImpl::PushData at the time `now`.
  unfoldable pub brpc_handler : ℕ → Message → List ℕ → Ack → Meter → Ack × (Option Report × Meter)
  brpc_handler now request attachment reply meter =
      let request_size = (P.byte_size request + length attachment) % 2 ^ 64 in
      (echo_header request reply, add_bytes now request_size meter)

-- StopServer, over gRPC and over brpc.
unfoldable pub grpc_stop_server : Bool
grpc_stop_server = true

unfoldable pub brpc_stop_server : Outcome (Unit {0})
brpc_stop_server = fatal unimplemented

-- AddService and Start of a brpc server, and Init of a channel: the int that they return.
pub record BrpcServer : Type 1 where
  pub World : Type 0
  pub add_service : World → ℕ × World
  pub start : World → ℤ → ℕ × World

unfoldable pub brpc_server_init :
    (B : BrpcServer) → BrpcServer.World B → ℤ → Outcome (BrpcServer.World B)
brpc_server_init B w port = do
  let (added, w') = BrpcServer.add_service B w
  require (added == 0) log_fatal
  let (started, w'') = BrpcServer.start B w' port
  require (started == 0) log_fatal
  done w''
