-- ===== src/Zeromq/Pushing.antt =====
-- PushDataZero of the client over ZeroMQ, and the loop that sends a part.
use rpc_bench.Common.{
  ℕ, zero, suc, ◌%◌, ◌^◌, ◌≤◌, ◌<◌, ◌≡◌, refl, sym, ap, ◌∙◌, subst, inl, inr, true, false, List, [],
  ◌∷◌, ◌++◌, append_assoc, length, take, drop, length-take, length-drop, length-append, done, Cause,
  check, ◌>>◌, require, Post, Post-bind, Post-mono, leb, ◌==◌, Bool-cases, arith,
}
use rpc_bench.Kernel.{got}
use rpc_bench.Kernel.Laws.{Reply-cases}
use rpc_bench.Client.{BwMessage, BwAck, PbBwHeader, pack}
use rpc_bench.Zeromq.{
  Zmq, dontwait, sndmore, is_size, message_length, serialize_to, init_data, fresh_size, send_part,
  push_data_zero,
}
use rpc_bench.Zeromq.Laws.{ZmqLaws}

-- What zmq_recv gave has another size than a header that is not packed.
pub data Checked (Z : Zmq) (G : PbBwHeader) : Cause → Type 0 where
  other_size :
      (w : Zmq.World Z)
      → is_size (fresh_size G) (message_length (Zmq.recv Z w (fresh_size G)).0) ≡ false
      → Checked Z G check

module _ (Z : Zmq) (laws : ZmqLaws Z) where
  open Z use {World, msg_send, msg_recv, msg_more, recv}
  open laws use {outbox, inbox, patience, may_send}

  -- A part is queued: `w'` is after it.
  pub record Queued (w : World) (msg : List ℕ) (tag : ℕ) (w' : World) : Type 0 where
    pub out : outbox w' ≡ outbox w ++ ((msg, tag) ∷ [])
    pub unread : inbox w' ≡ inbox w
    pub calmer : patience w' ≤ patience w
    pub again : tag ≡ sndmore → may_send w' ≡ true

  -- The loop around zmq_msg_send queues the part once.
  pub send_part-Queued :
      (F : Cause → Type 0) (fuel : ℕ) (w : World) (msg : List ℕ) (tag : ℕ)
      → length msg < 2 ^ 31
      → may_send w ≡ true
      → patience w < fuel
      → Post F (Queued w msg tag) (send_part Z fuel w msg (length msg) tag)
  unfolding send_part
  send_part-Queued F zero w msg tag short may enough = absurd (omega arith)
  send_part-Queued F (suc fuel) w msg tag short may enough =
      elim (Reply-cases (msg_send w msg tag).0) [
        | inr (e, failed) ↦
            let (out, unread, less, still) = laws.send_error w msg tag e may failed in
            rw (failed, send_part)
              (Post-mono F (Queued (msg_send w msg tag).1 msg tag) (Queued w msg tag) _
                (send_part-Queued F fuel (msg_send w msg tag).1 msg tag short still (omega arith))
                (λ w' q. record {
                  out = q.out ∙ ap (λ o. o ++ ((msg, tag) ∷ [])) out;
                  unread = q.unread ∙ unread;
                  calmer = omega (arith, q.calmer);
                  again = q.again;
                }))
        | inl (n, sent) ↦
            let (whole, out, unread, calmer) = laws.send_got w msg tag n short may sent in
            let same : (n % 2 ^ 32 == length msg % 2 ^ 32) ≡ true = ground arith in
            rw (sent, send_part)
              (rw (same, send_part)
                (record {
                  out = out;
                  unread = unread;
                  calmer = calmer;
                  again = λ e.
                      subst (λ t. may_send (msg_send w msg t).1 ≡ true) (sym e)
                        (laws.send_more w msg n may
                          (subst (λ t. (msg_send w msg t).0 ≡ got n) e sent));
                }))
      ]

  -- What is read off a buffer that is long enough.
  init_data-take :
      (F : Cause → Type 0) (n : ℕ) (bytes : List ℕ)
      → n ≤ length bytes
      → Post F (λ msg. (msg ≡ take n bytes) × (length msg ≡ n)) (init_data n bytes)
  unfolding init_data
  init_data-take F n bytes enough = elim (Bool-cases (leb n (length bytes))) [
    | inl e ↦ rw (e, init_data) (refl, ground (arith, length-take n bytes))
    | inr e ↦ absurd (ground arith)
  ]

  length-serialize_to :
      (bytes buf : List ℕ) → length buf ≡ 100 → length (serialize_to bytes buf) ≡ 100
  unfolding serialize_to
  length-serialize_to bytes buf h = elim (Bool-cases (leb (length bytes) 100)) [
    | inl e ↦
        rw (e, serialize_to)
          (ground
            (arith, length-append bytes (drop (length bytes) buf), length-drop (length bytes) buf))
    | inr e ↦ rw (e, serialize_to) h
  ]

  module _ (G : PbBwHeader) where
    -- The header part of a request.
    abbrev pub header_part : List ℕ → BwMessage → List ℕ
    header_part stale m =
        take (fresh_size G) (serialize_to (G.serialize (pack G m.header G.fresh)) stale)

    abbrev pub Pushed : World → List ℕ → BwMessage → BwAck → BwAck × World → Type 0
    Pushed w stale m ack (ack', w') =
        (ack'.success ≡ true)
        × (outbox w' ≡ outbox w ++ ((header_part stale m, sndmore) ∷ ((m.content, dontwait) ∷ [])))

    -- The reply is checked and dropped.
    replied :
        (w w₁ w₂ : World) (stale : List ℕ) (m : BwMessage) (ack : BwAck) (msg : List ℕ)
        → msg ≡ header_part stale m
        → outbox w₁ ≡ outbox w ++ ((msg, sndmore) ∷ [])
        → outbox w₂ ≡ outbox w₁ ++ ((m.content, dontwait) ∷ [])
        → Post (Checked Z G) (Pushed w stale m ack) (
            require (is_size (fresh_size G) (message_length (recv w₂ (fresh_size G)).0)) check
            >> done (record ack { success = true }, (recv w₂ (fresh_size G)).1))
    replied w w₁ w₂ stale m ack msg cut out₁ out₂ =
        elim (Bool-cases (is_size (fresh_size G) (message_length (recv w₂ (fresh_size G)).0))) [
          | inr other ↦ rw other (other_size w₂ other)
          | inl same ↦ rw same (
            refl,
            laws.recv_outbox w₂ (fresh_size G)
                ∙ out₂
                ∙ ap (λ o. o ++ ((m.content, dontwait) ∷ [])) out₁
                ∙ append_assoc (outbox w) ((msg, sndmore) ∷ []) ((m.content, dontwait) ∷ [])
                ∙ ap (λ h. outbox w ++ ((h, sndmore) ∷ ((m.content, dontwait) ∷ []))) cut,
          )
        ]

    -- PushDataZero, on a socket that may send, where a header that is not packed has at most 100
    -- bytes and the data fewer than 2^31, with fuel above the failures to come: it queues two
    -- parts, in order and each once, of which the first is the packed header cut to the size of one
    -- that is not packed, and the acknowledgement is a success. It aborts only where the reply has
    -- another size than a header that is not packed.
    pub push_data_zero-Pushed :
        (fuel : ℕ) (w : World) (stale : List ℕ) (m : BwMessage) (ack : BwAck)
        → length stale ≡ 100
        → fresh_size G ≤ 100
        → length m.content < 2 ^ 31
        → may_send w ≡ true
        → patience w < fuel
        → Post (Checked Z G) (Pushed w stale m ack) (push_data_zero Z G fuel w stale m ack)
    unfolding push_data_zero
    push_data_zero-Pushed fuel w stale m ack hundred fits short may enough =
        let buf = serialize_to (G.serialize (pack G m.header G.fresh)) stale in
        Post-bind (Checked Z G)
          (λ msg. (msg ≡ take (fresh_size G) buf) × (length msg ≡ fresh_size G)) _ _ _
          (init_data-take (Checked Z G) (fresh_size G) buf (
            omega
              (arith, length-serialize_to (G.serialize (pack G m.header G.fresh)) stale hundred)))
          (λ msg (cut, size).
            Post-bind (Checked Z G) (Queued w msg sndmore) _ _ _
              (subst
                (λ n. Post (Checked Z G) (Queued w msg sndmore) (send_part Z fuel w msg n sndmore))
                size (send_part-Queued (Checked Z G) fuel w msg sndmore (omega arith) may enough))
              (λ w₁ q₁.
                Post-bind (Checked Z G) (Queued w₁ m.content dontwait) _ _ _
                  (send_part-Queued (Checked Z G) fuel w₁ m.content dontwait short (q₁.again refl)
                    (omega (arith, q₁.calmer)))
                  (λ w₂ q₂. replied w w₁ w₂ stale m ack msg cut (q₁.out) (q₂.out))))
