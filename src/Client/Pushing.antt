-- ===== src/Client/Pushing.antt =====
-- PushData over TCP: what it sends, and what it makes of the reply.
use rpc_bench.Common.{
  ℕ, ◌+◌, ◌≤◌, ◌<◌, ◌^◌, ◌≡◌, refl, sym, ap, ◌∙◌, ◌⊎◌, inl, inr, ℤ, true, false, List, [], ◌++◌,
  append_assoc, take_all, append-nil, length, Outcome, done, Cause, check, ◌>>=◌, ◌>>◌, require,
  Post, Post-bind, Post-mono, Post-causes, ltb, leb, ◌==◌, Bool-cases, arith,
}
use rpc_bench.Kernel.{Kernel}
use rpc_bench.Kernel.Laws.{Stream, InterestList}
use rpc_bench.Socket.Transfer.{send_all, recv_all}
use rpc_bench.Socket.Growth.{Unread, NoMore, GrownTo}
use rpc_bench.Socket.Streams.{recv_all-Grown, HardError, AllAccepted, send_all-AllAccepted}
use rpc_bench.Endpoint.History.{History, rpc, received, header_room, data_room, IsSound}
use rpc_bench.Client.{BwMessage, BwAck, PbBwHeader, pack, unpack, encode_u32, first_part, push_data}
use rpc_bench.Client.Wire.{decode_u32-encode_u32}

length-first_part :
    (header content : List ℕ) → length (first_part header content) ≡ length header + 8
unfolding first_part encode_u32
length-first_part header content = omega arith

module _ (G : PbBwHeader) where
  -- The serialized header, and what PushData sends.
  abbrev pub header_bytes : BwMessage → List ℕ
  header_bytes m = G.serialize (pack G m.header G.fresh)

  abbrev pub request : BwMessage → List ℕ
  request m = first_part (header_bytes m) m.content ++ m.content

  -- The meta header of a message.
  abbrev pub meta_of : BwMessage → List ℕ
  meta_of m = encode_u32 (length (header_bytes m)) ++ encode_u32 (length m.content)

  -- What PushData sends is one RPC for the server, after any history whose messages were no larger,
  -- where the sizes of the header and of the data are below 2^32.
  pub request-IsSound :
      (K : Kernel) (S : Stream K) (fd : ℤ) (input : List ℕ) (h : History) (m : BwMessage)
      → IsSound K S fd input h
      → header_room h ≤ length (header_bytes m)
      → data_room h ≤ length m.content
      → length (header_bytes m) < 2 ^ 32
      → length m.content < 2 ^ 32
      → IsSound K S fd input (rpc h (meta_of m) (header_bytes m) m.content)
        × (received h ++ request m ≡ received (rpc h (meta_of m) (header_bytes m) m.content))
  unfolding first_part encode_u32
  request-IsSound K S fd input h m sound small_header small_data fits fits_data =
      let size =
        decode_u32-encode_u32 (length (header_bytes m)) (encode_u32 (length m.content)) fits in
      let data_size = decode_u32-encode_u32 (length m.content) [] fits_data in
      (
        (
          sound,
          omega arith,
          omega (arith, size, small_header),
          omega (arith, data_size, small_data),
        ),
        refl,
      )

module _ (G : PbBwHeader) (K : Kernel) (S : Stream K) (L : InterestList K) where
  open K use {World}
  open S use {incoming, sent, patience}

  -- Why PushData on `fd` may abort: SO_ERROR cannot be read, or a call of send failed for good
  -- before all of a buffer was taken.
  pub data Breaks (fd : ℤ) : Cause → Type 0 where
    unknown : (cause : Cause) → Unread K cause → Breaks fd cause
    stopped : (buf : List ℕ) (n : ℕ) → n < length buf → HardError K S L fd buf n → Breaks fd check

  -- The reply `bytes` for a message: all the bytes of a header, or fewer where the stream ended or
  -- failed.
  pub data Acked (m : BwMessage) (ack : BwAck) (fd : ℤ) (w' : World) (ack' : BwAck) (bytes : List ℕ)
      : Type 0 where
    whole :
        length bytes ≡ length (header_bytes G m)
        → ack'
          ≡ record { header = unpack G (G.parse bytes (pack G m.header G.fresh)); success = true }
        → Acked m ack fd w' ack' bytes
    cut_short :
        length bytes < length (header_bytes G m)
        → NoMore K fd (length (header_bytes G m)) bytes w'
        → ack' ≡ record ack { success = false }
        → Acked m ack fd w' ack' bytes

  pub record Pushed (w : World) (fd : ℤ) (m : BwMessage) (ack : BwAck) (r : BwAck × World)
      : Type 0 where
    pub out : sent r.1 fd ≡ sent w fd ++ request G m
    pub reply : List ℕ
    pub read : incoming w fd ≡ reply ++ incoming r.1 fd
    pub acked : Acked m ack fd r.1 r.0 reply

  -- SendAll of `buf` and the check that it took all.
  pub record Taken (w : World) (fd : ℤ) (buf : List ℕ) (w' : World) : Type 0 where
    pub out : sent w' fd ≡ sent w fd ++ buf
    pub unread : incoming w' fd ≡ incoming w fd
    pub calmer : patience w' fd ≤ patience w fd

  send_all-Taken :
      (Q : BwAck × World → Type 0) (fuel : ℕ) (w : World) (fd : ℤ) (buf : List ℕ) (size : ℕ)
      (next : World → Outcome (BwAck × World))
      → size ≡ length buf
      → length buf + patience w fd < fuel
      → ((w' : World) → Taken w fd buf w' → Post (Breaks fd) Q (next w'))
      → Post
          (Breaks fd)
          Q
          (send_all K fuel w fd buf 0 >>= λ r. require (size == r.0) check >> next r.1)
  send_all-Taken Q fuel w fd buf size next same enough go =
      Post-bind (Breaks fd) (AllAccepted K S L w fd buf) Q _ _
        (Post-causes (Unread K) (Breaks fd) (AllAccepted K S L w fd buf) _
          (send_all-AllAccepted K S L fuel w w fd buf 0
            (record {
              out = sym (append-nil _);
              within = omega arith;
              unread = refl;
              calmer = omega arith;
            })
            (omega arith))
          unknown)
        (λ r a. checked r a)
    where
      unfinished :
          (r : ℕ × World) → AllAccepted K S L w fd buf r → r.0 < length buf → Breaks fd check
      unfinished r (a, inl all) few = absurd (omega arith)
      unfinished r (a, inr hard) few = stopped buf r.0 few hard

      checked :
          (r : ℕ × World)
          → AllAccepted K S L w fd buf r
          → Post (Breaks fd) Q (require (size == r.0) check >> next r.1)
      checked r a = elim (Bool-cases (size == r.0)) [
        | inr less ↦ rw less (unfinished r a (ground (arith, a.0.within)))
        | inl all ↦ rw all (
            go r.1 (record {
              out = a.0.out ∙ ap (λ bs. sent w fd ++ bs) (take_all r.0 buf (ground arith));
              unread = a.0.unread;
              calmer = a.0.calmer;
            }))
      ]

  abbrev Answered : World → ℤ → BwMessage → BwAck → BwAck × World → Type 0
  Answered w fd m ack (ack', w') =
      (sent w' fd ≡ sent w fd)
      × ((reply : List ℕ) × (incoming w fd ≡ reply ++ incoming w' fd)
          × Acked m ack fd w' ack' reply)

  -- The reply is read.
  reply-Acked :
      (fuel : ℕ) (w : World) (fd : ℤ) (m : BwMessage) (ack : BwAck)
      → length (header_bytes G m) + patience w fd < fuel
      → Post (Breaks fd) (Answered w fd m ack) (
          recv_all K fuel w fd (length (header_bytes G m)) [] >>= λ r.
          elim (ltb (length r.0) (length (header_bytes G m))) [
            | true ↦ done (record ack { success = false }, r.1)
            | false ↦ done (
              record { header = unpack G (G.parse r.0 (pack G m.header G.fresh)); success = true },
              r.1,
            )
          ])
  reply-Acked fuel w fd m ack enough =
      let len = length (header_bytes G m) in
      Post-bind (Breaks fd) (GrownTo K S L w fd len []) (Answered w fd m ack) _ _
        (Post-causes (Unread K) (Breaks fd) (GrownTo K S L w fd len []) _
          (recv_all-Grown K S L fuel w fd len [] (omega arith) (omega arith)) unknown)
        (λ (bytes, w') (g, why). elim (Bool-cases (ltb (length bytes) len)) [
          | inl short ↦ rw short (
            g.unsent,
            (bytes, g.stream, cut_short (ground arith) (ended bytes w' (ground arith) why) refl),
          )
          | inr full ↦ rw full (g.unsent, (bytes, g.stream, whole (ground (arith, g.room)) refl))
        ])
    where
      ended :
          (bytes : List ℕ) (w' : World)
          → length bytes < length (header_bytes G m)
          → (length bytes ≡ length (header_bytes G m))
            ⊎ NoMore K fd (length (header_bytes G m)) bytes w'
          → NoMore K fd (length (header_bytes G m)) bytes w'
      ended bytes w' few (inl full) = absurd (omega arith)
      ended bytes w' few (inr more) = more

  -- PushData over TCP, where the header and the meta header fit the send buffer, with fuel for the
  -- bytes and the delays: it returns, or aborts only where SO_ERROR cannot be read or a call of
  -- send failed for good before all of a buffer was taken. It has sent one request, in order, and
  -- the acknowledgement is what the next bytes of the stream, as many as the header has, parse to,
  -- or no success where the stream ended or failed before.
  pub push_data-Pushed :
      (fuel : ℕ) (w : World) (fd : ℤ) (m : BwMessage) (ack : BwAck)
      → length (header_bytes G m) + 8 ≤ 4_194_304
      → length (header_bytes G m) + 8 + length m.content + patience w fd < fuel
      → Post (Breaks fd) (Pushed w fd m ack) (push_data G K fuel w fd m ack)
  unfolding push_data
  push_data-Pushed fuel w fd m ack fits enough =
      let header = header_bytes G m in
      let first = first_part header m.content in
      let room : leb (length header + 8) 4_194_304 ≡ true = ground arith in
      rw (room, push_data)
        (send_all-Taken (Pushed w fd m ack) fuel w fd first (length header + 8) _
          (sym (length-first_part header m.content))
          (omega (arith, length-first_part header m.content))
          (λ w₁ t₁.
            send_all-Taken (Pushed w fd m ack) fuel w₁ fd m.content (length m.content) _ refl
              (omega (arith, t₁.calmer))
              (λ w₂ t₂.
                Post-mono (Breaks fd) (Answered w₂ fd m ack) (Pushed w fd m ack) _
                  (reply-Acked fuel w₂ fd m ack (omega (arith, t₁.calmer, t₂.calmer)))
                  (λ r (unsent, (reply, read, acked)). record {
                    out =
                        unsent
                        ∙ t₂.out
                        ∙ ap (λ o. o ++ m.content) t₁.out
                        ∙ append_assoc (sent w fd) first m.content;
                    reply = reply;
                    read = sym (t₂.unread ∙ t₁.unread) ∙ read;
                    acked = acked;
                  }))))
