-- ===== src/Bandwidth/Echo.antt =====
-- A message comes back as the acknowledgement with its header, over gRPC and over brpc.
use rpc_bench.Common.{
  ℕ, ◌+◌, ◌%◌, ◌^◌, ◌≡◌, refl, ap, ◌∙◌, ◌⊎◌, inl, inr, Bool, true, false, List, Bool-cases,
}
use rpc_bench.Meter.{Meter}
use rpc_bench.Client.{BwHeader, BwMessage, BwAck, PbBwHeader, pack, unpack}
use rpc_bench.Bandwidth.{
  PbMessages, GrpcStub, BrpcStub, Answer, pack_message, grpc_answer, grpc_push_data, echo_header,
  grpc_handler, brpc_answer, brpc_push_data, brpc_handler,
}

-- The accessors of a generated header read what its setters set.
pub record HeaderLaws (G : PbBwHeader) : Type 0 where
  pub field1_set1 : (x : ℕ) (pb : G.Pb) → G.field1 (G.set_field1 x pb) ≡ x
  pub field1_set2 : (b : Bool) (pb : G.Pb) → G.field1 (G.set_field2 b pb) ≡ G.field1 pb
  pub field1_set3 : (s : List ℕ) (pb : G.Pb) → G.field1 (G.set_field3 s pb) ≡ G.field1 pb
  pub field2_set2 : (b : Bool) (pb : G.Pb) → G.field2 (G.set_field2 b pb) ≡ b
  pub field2_set3 : (s : List ℕ) (pb : G.Pb) → G.field2 (G.set_field3 s pb) ≡ G.field2 pb
  pub field3_set3 : (s : List ℕ) (pb : G.Pb) → G.field3 (G.set_field3 s pb) ≡ s

abbrev idle_meter : Meter
idle_meter = record {
  sample = 0;
  cnt = 0;
  bytes = 0;
  qps = 0;
  tp = 0;
  interval = 0;
  disable = true;
}

-- UnpackPbBwHeader after PackPbBwHeader, over any old message.
pub unpack-pack :
    (G : PbBwHeader)
    → HeaderLaws G
    → (h : BwHeader) (pb : PbBwHeader.Pb G) → unpack G (pack G h pb) ≡ h
unfolding pack unpack
unpack-pack G laws h pb =
    rw
      (
        laws.field1_set3, laws.field1_set2, laws.field1_set1, laws.field2_set3, laws.field2_set2,
        laws.field3_set3,
      )
      refl

-- The accessors of the generated messages read what was set through them.
pub record MessageLaws (P : PbMessages) : Type 0 where
  pub headers : HeaderLaws P.header_class
  pub header_with :
      (h : PbBwHeader.Pb P.header_class) (m : P.Message) → P.header (P.with_header h m) ≡ h
  pub header_set_data : (bs : List ℕ) (m : P.Message) → P.header (P.set_data bs m) ≡ P.header m
  pub ack_header_with :
      (h : PbBwHeader.Pb P.header_class) (a : P.Ack) → P.ack_header (P.with_ack_header h a) ≡ h

-- The acknowledgement of a message: its header, or no success and the header as it was.
abbrev pub Acked : BwMessage → BwAck → BwAck → Type 0
Acked m ack result =
    ((result.success ≡ true) × (result.header ≡ m.header))
    ⊎ ((result.success ≡ false) × (result.header ≡ ack.header))

module _ (P : PbMessages) (laws : MessageLaws P) where
  -- What the client reads in the handler's reply to a request with the header of `m`.
  unpack-echo_header :
      (m : BwMessage) (request : PbMessages.Message P) (old : PbBwHeader.Pb P.header_class)
      (reply : PbMessages.Ack P)
      → P.header request ≡ pack P.header_class m.header old
      → unpack P.header_class (P.ack_header (echo_header P request reply)) ≡ m.header
  unfolding echo_header
  unpack-echo_header m request old reply e =
      let h = unpack P.header_class (P.header request) in
      let back : h ≡ m.header =
        ap (unpack P.header_class) e ∙ unpack-pack P.header_class laws.headers m.header old in
      ap (unpack P.header_class) (laws.ack_header_with _ reply)
      ∙ unpack-pack P.header_class laws.headers h (P.ack_header reply)
      ∙ back

  -- A call that succeeds leaves in the reply what the handler makes of the request.
  abbrev pub IsDelivered : GrpcStub P → Type 0
  IsDelivered S =
      (w : S.World) (request : P.Message) (now : ℕ) (meter : Meter)
      → (S.call w request P.fresh_ack).0.0 ≡ true
      → (S.call w request P.fresh_ack).0.1 ≡ (grpc_handler P now request P.fresh_ack meter).0.1

  answer-Acked :
      (m : BwMessage) (ack : BwAck) (answer : Answer P)
      → (answer.0 ≡ true → unpack P.header_class (P.ack_header answer.1) ≡ m.header)
      → Acked m ack (grpc_answer P answer ack)
  unfolding grpc_answer
  answer-Acked m ack (true, reply) h = inl (refl, h refl)
  answer-Acked m ack (false, reply) h = inr (refl, refl)

  -- PushData over gRPC, where a call that succeeds was served by the handler: a success brings
  -- back the header that was sent, and without one the acknowledgement's header stays.
  pub grpc_push_data-Acked :
      (S : GrpcStub P)
      → IsDelivered S
      → (w : GrpcStub.World S) (m : BwMessage) (ack : BwAck)
      → Acked m ack (grpc_push_data P S w m ack).0
  unfolding grpc_push_data grpc_handler pack_message
  grpc_push_data-Acked S served w m ack =
      let request = pack_message P m P.fresh_message in
      answer-Acked m ack (S.call w request P.fresh_ack).0 (λ ok.
        ap (λ a. unpack P.header_class (P.ack_header a)) (served w request 0 idle_meter ok)
        ∙ unpack-echo_header m request (P.header P.fresh_message) P.fresh_ack
            (laws.header_set_data m.content _ ∙ laws.header_with _ P.fresh_message))

  abbrev pub IsDeliveredBrpc : BrpcStub P → Type 0
  IsDeliveredBrpc S =
      (w : S.World) (log_id : ℕ) (request : P.Message) (attachment : List ℕ) (now : ℕ)
      (meter : Meter)
      → (S.call w log_id request attachment P.fresh_ack).0.0 ≡ true
      → (S.call w log_id request attachment P.fresh_ack).0.1
        ≡ (brpc_handler P now request attachment P.fresh_ack meter).0

  -- PushData over brpc, where a call that succeeds was served by the handler: a success brings back
  -- the header that was sent, and without one the acknowledgement's header stays. Once the program
  -- is asked to quit there is no success, no call is made, and the log id stays; else the log id
  -- goes up by one.
  pub brpc_push_data-Acked :
      (S : BrpcStub P)
      → IsDeliveredBrpc S
      → (w : BrpcStub.World S) (log_id : ℕ) (m : BwMessage) (ack : BwAck)
      → Acked m ack (brpc_push_data P S w log_id m ack).0
        × (((S.is_asked_to_quit w ≡ true)
              × ((brpc_push_data P S w log_id m ack).0.success ≡ false)
              × ((brpc_push_data P S w log_id m ack).1 ≡ (log_id, w)))
            ⊎ ((S.is_asked_to_quit w ≡ false)
                × ((brpc_push_data P S w log_id m ack).1.0 ≡ (log_id + 1) % 2 ^ 64)))
  unfolding brpc_push_data brpc_handler brpc_answer grpc_answer
  brpc_push_data-Acked S served w log_id m ack = elim (Bool-cases (S.is_asked_to_quit w)) [
    | inl quit ↦ rw (quit, brpc_push_data) (inr (refl, refl), inl (refl, refl, refl))
    | inr go_on ↦
        let request =
          P.with_header (pack P.header_class m.header (P.header P.fresh_message)) P.fresh_message in
        rw (go_on, brpc_push_data)
          (
            answer-Acked m ack (S.call w log_id request m.content P.fresh_ack).0 (λ ok.
                ap (λ a. unpack P.header_class (P.ack_header a))
                  (served w log_id request m.content 0 idle_meter ok)
                ∙ unpack-echo_header m request (P.header P.fresh_message) P.fresh_ack
                    (laws.header_with _ P.fresh_message)),
            inr (refl, refl),
          )
  ]
