-- ===== src/Zeromq/Serving.antt =====
-- A round of RunZero of the server over ZeroMQ.
use rpc_bench.Common.{
  ℕ, zero, suc, ◌+◌, ◌^◌, ◌≤◌, ◌<◌, ◌≡◌, refl, sym, ap, ◌∙◌, inl, inr, Bool, true, List, [], ◌∷◌,
  ◌++◌, length, done, Cause, Post, Post-bind, Post-mono, leb, Bool-cases, All, if◌then◌else◌, arith,
}
use rpc_bench.Meter.{Meter, add_bytes}
use rpc_bench.Meter.Conservation.{Call, bytes_call, call, all_bytes, run}
use rpc_bench.Client.{PbBwHeader}
use rpc_bench.Zeromq.{Zmq, dontwait, is_positive, init_data, fresh_size, recv_parts, serve_zero}
use rpc_bench.Zeromq.Laws.{ZmqLaws, IsMessage}
use rpc_bench.Zeromq.Pushing.{Queued, send_part-Queued}

-- The bytes of all the parts.
abbrev pub size_of : List (List ℕ × Bool) → ℕ
size_of [] = 0
size_of (p ∷ ps) = length p.0 + size_of ps

all_bytes-append : (a b : List Call) → all_bytes (a ++ b) ≡ all_bytes a + all_bytes b
all_bytes-append [] b = omega arith
all_bytes-append (c ∷ a) b = omega (arith, all_bytes-append a b)

run-append : (a b : List Call) (m : Meter) → (run (a ++ b) m).1 ≡ (run b (run a m).1).1
unfolding run
run-append [] b m = refl
run-append (c ∷ a) b m = run-append a b (call c m).1

module _ (Z : Zmq) (laws : ZmqLaws Z) where
  open Z use {World, msg_send, msg_recv, msg_more, recv}
  open laws use {outbox, inbox, patience, may_send}

  init_data_none : (bytes : List ℕ) → init_data 0 bytes ≡ done []
  unfolding init_data
  init_data_none bytes = elim (Bool-cases (leb 0 (length bytes))) [
    | inl e ↦ rw (e, init_data) refl
    | inr e ↦ absurd (ground arith)
  ]

  -- What the loop over `parts` leaves: the last part, and a meter that counted them all.
  pub record Drained (w : World) (meter : Meter) (parts rest : List (List ℕ × Bool)) (last : List ℕ)
      (r : List ℕ × (Meter × World)) : Type 0 where
    pub left : r.0 ≡ last
    pub unread : inbox r.1.1 ≡ rest
    pub out : outbox r.1.1 ≡ outbox w
    pub calmer : patience r.1.1 ≤ patience w
    pub may : may_send r.1.1 ≡ true
    pub metered : (cs : List Call) × (all_bytes cs ≡ size_of parts) × (r.1.0 ≡ (run cs meter).1)

  -- One part is metered, an empty one without a call.
  metered_part :
      (now : ℕ) (part : List ℕ) (meter : Meter)
      → length part < 2 ^ 31
      → (cs : List Call) × (all_bytes cs ≡ length part)
        × ((if is_positive (length part) then (add_bytes now (length part) meter).1 else meter)
            ≡ (run cs meter).1)
  unfolding is_positive run
  metered_part now part meter short = elim (Bool-cases (is_positive (length part))) [
    | inl e ↦ (bytes_call now (length part) ∷ [], omega arith, rw e refl)
    | inr e ↦ ([], ground arith, rw e refl)
  ]

  -- The parts of a request that came in are all received, in order, and the last is left.
  recv_parts-Drained :
      (F : Cause → Type 0) (fuel : ℕ) (w : World) (old : List ℕ) (meter : Meter)
      (parts rest : List (List ℕ × Bool)) (last : List ℕ)
      → IsMessage parts last
      → All (λ p. length p.0 < 2 ^ 31) parts
      → inbox w ≡ parts ++ rest
      → length parts ≤ fuel
      → Post F (Drained w meter parts rest last) (recv_parts Z fuel w old meter)
  unfolding recv_parts
  recv_parts-Drained F fuel w old meter [] rest last whole short inp enough = absurd whole
  recv_parts-Drained F zero w old meter (p ∷ ps) rest last whole short inp enough =
      absurd (omega arith)
  recv_parts-Drained F (suc fuel) w old meter ((part, more) ∷ []) rest last whole short inp enough =
      let (came, no_more, left, out, calmer) = laws.msg_recv_part w part more rest inp in
      let final = ap (λ b. (part, b) ∷ rest) whole.0 in
      let (cs, all, counted) = metered_part (Z.clock (msg_recv w).1) part meter short.0 in
      rw (came, recv_parts)
        (rw (no_more ∙ whole.0, recv_parts)
          (record {
            left = whole.1;
            unread = left;
            out = out;
            calmer = calmer;
            may = laws.last_may_send w part rest (inp ∙ final);
            metered = (cs, omega arith, counted);
          }))
  recv_parts-Drained F (suc fuel) w old meter ((part, more) ∷ (next ∷ ps)) rest last whole short inp
        enough =
      let (came, goes_on, left, out, calmer) =
        laws.msg_recv_part w part more ((next ∷ ps) ++ rest) inp in
      let (cs, all, counted) = metered_part (Z.clock (msg_recv w).1) part meter short.0 in
      let meter' =
        if is_positive (length part)
        then (add_bytes (Z.clock (msg_recv w).1) (length part) meter).1
        else meter in
      rw (came, recv_parts)
        (rw (goes_on ∙ whole.0, recv_parts)
          (Post-mono F (Drained (msg_recv w).1 meter' (next ∷ ps) rest last)
            (Drained w meter ((part, more) ∷ (next ∷ ps)) rest last) _
            (recv_parts-Drained F fuel (msg_recv w).1 part meter' (next ∷ ps) rest last whole.1
              short.1 left (omega arith))
            (λ r h. record {
              left = h.left;
              unread = h.unread;
              out = h.out ∙ out;
              calmer = omega (arith, h.calmer);
              may = h.may;
              metered = (
                cs ++ h.metered.0,
                omega (arith, all_bytes-append cs h.metered.0, h.metered.1),
                h.metered.2
                    ∙ ap (λ m. (run h.metered.0 m).1) counted
                    ∙ sym (run-append cs h.metered.0 meter),
              );
            })))

  module _ (G : PbBwHeader) where
    abbrev pub Replied :
        World → Meter → List (List ℕ × Bool) → List (List ℕ × Bool) → Meter × World → Type 0
    Replied w meter parts rest (meter', w') =
        (inbox w' ≡ rest)
        × (outbox w' ≡ outbox w ++ (([], dontwait) ∷ []))
        × ((cs : List Call) × (all_bytes cs ≡ size_of parts) × (meter' ≡ (run cs meter).1))

    -- A round of RunZero where a request has come in, whose parts have fewer than 2^31 bytes, and
    -- where a header that is not packed is serialized to nothing, with fuel for the parts and above
    -- the failures to come: all the parts are received, their bytes are metered, and one empty
    -- message is queued as the reply.
    pub serve_zero-Replied :
        (fuel : ℕ) (w : World) (meter : Meter) (parts rest : List (List ℕ × Bool)) (last : List ℕ)
        → G.serialize G.fresh ≡ []
        → IsMessage parts last
        → All (λ p. length p.0 < 2 ^ 31) parts
        → inbox w ≡ parts ++ rest
        → length parts ≤ fuel
        → patience w < fuel
        → Post (λ cause. ⊥) (Replied w meter parts rest) (serve_zero Z G fuel w meter)
    unfolding serve_zero fresh_size
    serve_zero-Replied fuel w meter parts rest last nothing whole short inp long enough =
        rw (laws.msg_init_ok w, nothing, serve_zero)
          (Post-bind (λ cause. ⊥) (Drained w meter parts rest last) (Replied w meter parts rest) _ _
            (recv_parts-Drained (λ cause. ⊥) fuel w [] meter parts rest last whole short inp long)
            (λ r d. rw (init_data_none r.0) (
              Post-bind (λ cause. ⊥) (Queued Z laws r.1.1 [] dontwait) (Replied w meter parts rest)
                _ _
                (send_part-Queued Z laws (λ cause. ⊥) fuel r.1.1 [] dontwait (omega arith) d.may
                  (omega (arith, d.calmer)))
                (λ w' q. (
                  q.unread ∙ d.unread,
                  q.out ∙ ap (λ o. o ++ (([], dontwait) ∷ [])) d.out,
                  d.metered,
                )))))
