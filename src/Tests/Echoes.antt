-- ===== src/Tests/Echoes.antt =====
-- The theorems on the bandwidth application over gRPC and brpc at concrete inputs.
use rpc_bench.Common.{ℕ, ◌+◌, ◌%◌, ◌^◌, ◌≡◌, ◌⊎◌, refl, true, false, [], ◌∷◌}
use rpc_bench.Meter.{Meter}
use rpc_bench.Client.{BwHeader, BwMessage, BwAck, PbBwHeader, message_size}
use rpc_bench.Bandwidth.{
  PbMessages, GrpcStub, BrpcStub, grpc_push_data, grpc_handler, brpc_push_data, brpc_handler,
}
use rpc_bench.Bandwidth.Echo.{MessageLaws, Acked, grpc_push_data-Acked, brpc_push_data-Acked}

abbrev no_header : BwHeader
no_header = record { field1 = 0; field2 = false; field3 = [] }

-- Generated classes that hold the fields as they are.
abbrev pub plain_header : PbBwHeader
plain_header = record {
  Pb = BwHeader;
  fresh = no_header;
  set_field1 = λ x h. record h { field1 = x };
  set_field2 = λ b h. record h { field2 = b };
  set_field3 = λ s h. record h { field3 = s };
  field1 = λ h. h.field1;
  field2 = λ h. h.field2;
  field3 = λ h. h.field3;
  serialize = λ h. h.field3;
  parse = λ bs h. record h { field3 = bs };
}

abbrev plain_messages : PbMessages
plain_messages = record {
  header_class = plain_header;
  Message = BwMessage;
  Ack = BwHeader;
  fresh_message = record { header = no_header; content = [] };
  fresh_ack = no_header;
  header = λ m. m.header;
  with_header = λ h m. record m { header = h };
  set_data = λ bs m. record m { content = bs };
  byte_size = message_size;
  ack_header = λ a. a;
  with_ack_header = λ h a. h;
}

plain_messages-MessageLaws : MessageLaws plain_messages
plain_messages-MessageLaws = record {
  headers = record {
    field1_set1 = λ x pb. refl;
    field1_set2 = λ b pb. refl;
    field1_set3 = λ s pb. refl;
    field2_set2 = λ b pb. refl;
    field2_set3 = λ s pb. refl;
    field3_set3 = λ s pb. refl;
  };
  header_with = λ h m. refl;
  header_set_data = λ bs m. refl;
  ack_header_with = λ h a. refl;
}

abbrev pub idle_meter : Meter
idle_meter = record {
  sample = 1;
  cnt = 0;
  bytes = 0;
  qps = 0;
  tp = 0;
  interval = 1000;
  disable = false;
}

-- The server's handler at the other end; the world is the number of calls so far.
abbrev grpc_pipe : GrpcStub plain_messages
grpc_pipe = record {
  World = ℕ;
  call = λ w request reply. ((grpc_handler plain_messages w request reply idle_meter).0, w + 1);
}

abbrev brpc_pipe : BrpcStub plain_messages
brpc_pipe = record {
  World = ℕ;
  is_asked_to_quit = λ w. false;
  call = λ w log_id request attachment reply.
      ((true, (brpc_handler plain_messages w request attachment reply idle_meter).0), w + 1);
}

abbrev pub hello : BwMessage
hello = record {
  header = record { field1 = 1; field2 = true; field3 = 7 ∷ [] };
  content = 5 ∷ 6 ∷ [];
}

abbrev pub no_ack : BwAck
no_ack = record { header = no_header; success = false }

grpc_push_data-Acked_example :
    Acked hello no_ack (grpc_push_data plain_messages grpc_pipe 3 hello no_ack).0
unfolding grpc_handler
grpc_push_data-Acked_example =
    grpc_push_data-Acked plain_messages plain_messages-MessageLaws grpc_pipe
      (λ w request now meter ok. refl) 3 hello no_ack

brpc_push_data-Acked_example :
    Acked hello no_ack (brpc_push_data plain_messages brpc_pipe 3 9 hello no_ack).0
    × (((false ≡ true)
          × ((brpc_push_data plain_messages brpc_pipe 3 9 hello no_ack).0.success ≡ false)
          × ((brpc_push_data plain_messages brpc_pipe 3 9 hello no_ack).1 ≡ (9, 3)))
        ⊎ ((false ≡ false)
            × ((brpc_push_data plain_messages brpc_pipe 3 9 hello no_ack).1.0 ≡ 10 % 2 ^ 64)))
unfolding brpc_handler
brpc_push_data-Acked_example =
    brpc_push_data-Acked plain_messages plain_messages-MessageLaws brpc_pipe
      (λ w log_id request attachment now meter ok. refl) 3 9 hello no_ack
