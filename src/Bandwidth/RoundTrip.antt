-- ===== src/Bandwidth/RoundTrip.antt =====
-- PushData over TCP against the server: what comes back is the header that was sent.
use rpc_bench.Common.{
  ℕ, ◌+◌, ◌≤◌, ◌<◌, ◌^◌, ◌≡◌, refl, sym, ap, ap₂, ◌∙◌, subst, ◌⊎◌, inl, inr, ℤ, List, [], ◌++◌,
  append_assoc, take, drop, length, length-append, length-take, take-append_exact,
  drop-append_exact, append-nil, take_all, Post, Post-mono, arith,
}
use rpc_bench.Kernel.{Kernel}
use rpc_bench.Kernel.Laws.{Stream, InterestList}
use rpc_bench.Endpoint.Receive.{decode_u32}
use rpc_bench.Endpoint.History.{
  History, opened, rpc, cut, received, replied, IsSound, Echo, settled, answering,
}
use rpc_bench.Client.{BwMessage, BwAck, PbBwHeader, pack, unpack, first_part, encode_u32, push_data}
use rpc_bench.Client.Pushing.{
  header_bytes, request, meta_of, request-IsSound, Breaks, Pushed, push_data-Pushed, whole,
  cut_short,
}
use rpc_bench.Client.Pushing
use rpc_bench.Bandwidth.Echo.{HeaderLaws, unpack-pack, Acked}

-- No bytes were read in vain.
abbrev pub IsWhole : History → Type 0
IsWhole opened = Unit {0}
IsWhole (rpc h meta header content) = IsWhole h
IsWhole (cut h bits) = ⊥

abbrev pub IsUncut :
    {K : Kernel} {S : Stream K} {fd : ℤ} {input output : List ℕ} → Echo K S fd input output → Type 0
IsUncut (settled h rest sound inp out) = IsWhole h
IsUncut (answering h meta header content rest k sound inp fits out) = IsWhole h

split : (a b c d : List ℕ) → a ++ b ≡ c ++ d → length a ≡ length c → (a ≡ c) × (b ≡ d)
split a b c d e same = (
  sym (take-append_exact (length a) a b refl)
      ∙ ap (take (length a)) e
      ∙ take-append_exact (length a) c d (sym same),
  sym (drop-append_exact (length a) a b refl)
      ∙ ap (drop (length a)) e
      ∙ drop-append_exact (length a) c d (sym same),
)

module _ (G : PbBwHeader) (K : Kernel) (S : Stream K) (fd : ℤ) (m : BwMessage)
    (fits : length (header_bytes G m) < 2 ^ 32) (fits_data : length m.content < 2 ^ 32) where
  request-split : request G m ≡ meta_of G m ++ (header_bytes G m ++ m.content)
  unfolding first_part encode_u32
  request-split = refl

  -- The first RPC of a connection that a request begins is that request.
  first-Request :
      (meta header content rest : List ℕ)
      → IsSound K S fd (request G m) (rpc opened meta header content)
      → request G m ≡ (meta ++ (header ++ content)) ++ rest
      → (header ≡ header_bytes G m) × (rest ≡ [])
  first-Request meta header content rest sound e =
      let (own, same) =
        request-IsSound G K S fd (request G m) opened m tt (omega arith) (omega arith) fits
          fits_data in
      let e' : meta ++ ((header ++ content) ++ rest)
          ≡ meta_of G m ++ (header_bytes G m ++ m.content) =
        sym (append_assoc meta (header ++ content) rest) ∙ sym e ∙ request-split in
      let (meta_same, after) = split meta _ (meta_of G m) _ e' (omega (arith, sound.1, own.1)) in
      let sizes = ap decode_u32 meta_same in
      let data_sizes = ap (λ b. decode_u32 (drop 4 b)) meta_same in
      let (header_same, left) =
        split header (content ++ rest) (header_bytes G m) m.content
          (sym (append_assoc header content rest) ∙ after) (omega (arith, sound.2, own.2, sizes)) in
      let (content_same, none_left) =
        split content rest m.content [] (left ∙ sym (append-nil m.content))
          (omega (arith, sound.3, own.3, data_sizes)) in
      (header_same, none_left)

  -- The RPC after the history `h` that a request begins is that request, and `h` is empty.
  last-Request :
      (h : History) (meta header content rest : List ℕ)
      → IsSound K S fd (request G m) (rpc h meta header content)
      → request G m ≡ received h ++ ((meta ++ (header ++ content)) ++ rest)
      → (h ≡ opened)
        ⊎ ((replied h ≡ header_bytes G m) × ((meta ++ (header ++ content)) ++ rest ≡ []))
      → (replied h ≡ []) × (header ≡ header_bytes G m) × (rest ≡ [])
  last-Request h meta header content rest sound e (inr (done_before, nothing)) = absurd (
      omega (
        arith,
        ap length nothing,
        length-append (meta ++ (header ++ content)) rest,
        length-append meta (header ++ content),
        sound.1,
      ))
  last-Request h meta header content rest sound e (inl start) =
      let sound' =
        subst (λ h'. IsSound K S fd (request G m) (rpc h' meta header content)) start sound in
      let (same, none_left) =
        first-Request meta header content rest sound'
          (e ∙ ap (λ h'. received h' ++ ((meta ++ (header ++ content)) ++ rest)) start) in
      (ap replied start, same, none_left)

  -- A history of whole RPCs in a request is empty, or it is the one RPC of the request.
  whole-Request :
      (h : History) (rest : List ℕ)
      → IsSound K S fd (request G m) h
      → IsWhole h
      → request G m ≡ received h ++ rest
      → (h ≡ opened) ⊎ ((replied h ≡ header_bytes G m) × (rest ≡ []))
  whole-Request opened rest sound uncut e = inl refl
  whole-Request (cut h bits) rest sound uncut e = absurd uncut
  whole-Request (rpc h meta header content) rest sound uncut e =
      let e' = e ∙ append_assoc (received h) (meta ++ (header ++ content)) rest in
      let before = whole-Request h ((meta ++ (header ++ content)) ++ rest) sound.0 uncut e' in
      let (silent, same, none_left) = last-Request h meta header content rest sound e' before in
      inr (ap₂ (λ a b. a ++ b) silent same, none_left)

  -- A server sends no more for a request than its header.
  Echo-Request :
      (output : List ℕ) (e : Echo K S fd (request G m) output)
      → IsUncut e
      → (k : ℕ) × (output ≡ take k (header_bytes G m))
  Echo-Request output (settled h rest sound inp out) uncut =
      elim (whole-Request h rest sound uncut inp) [
        | inl start ↦ (0, out ∙ ap replied start)
        | inr (same, none_left) ↦
            let all = take_all (length (header_bytes G m)) (header_bytes G m) (omega arith) in
            (length (header_bytes G m), out ∙ same ∙ sym all)
      ]
  Echo-Request output (answering h meta header content rest k sound inp few out) uncut =
      let e' = inp ∙ append_assoc (received h) (meta ++ (header ++ content)) rest in
      let before = whole-Request h ((meta ++ (header ++ content)) ++ rest) sound.0 uncut e' in
      let (silent, same, none_left) = last-Request h meta header content rest sound e' before in
      (k, out ∙ ap₂ (λ a b. a ++ take k b) silent same)

  -- A reply as long as the header is the header.
  reply-Request :
      (output reply more : List ℕ) (e : Echo K S fd (request G m) output)
      → IsUncut e
      → output ≡ reply ++ more
      → length reply ≡ length (header_bytes G m)
      → reply ≡ header_bytes G m
  reply-Request output reply more e uncut parts long =
      let (k, same) = Echo-Request output e uncut in
      let short = ap length (sym parts ∙ same) in
      let all : take k (header_bytes G m) ≡ header_bytes G m =
        take_all k (header_bytes G m) (
          omega (arith, short, length-append reply more, length-take k (header_bytes G m), long)) in
      (split reply more (header_bytes G m) []
        (sym parts ∙ same ∙ all ∙ sym (append-nil (header_bytes G m))) long).0

-- Parsing into a message what it serializes to gives its fields.
abbrev pub IsReadBack : PbBwHeader → Type 0
IsReadBack G = (pb : G.Pb) → unpack G (G.parse (G.serialize pb) pb) ≡ unpack G pb

module _ (G : PbBwHeader) (K : Kernel) (S : Stream K) (L : InterestList K) where
  open K use {World}
  open S use {incoming, patience}

  echoed :
      (server : Kernel) (stream : Stream server) (server_fd : ℤ) (m : BwMessage) (ack : BwAck)
      (fd : ℤ) (output : List ℕ) (e : Echo server stream server_fd (request G m) output)
      → IsUncut e
      → HeaderLaws G
      → IsReadBack G
      → length (header_bytes G m) < 2 ^ 32
      → length m.content < 2 ^ 32
      → (w' : World) (ack' : BwAck) (reply more : List ℕ) → output ≡ reply ++ more
      → Pushing.Acked G K S L m ack fd w' ack' reply
      → Acked m ack ack'
  echoed server stream server_fd m ack fd output e uncut laws back fits fits_data w' ack' reply more
        parts (cut_short few why same) =
      inr (ap (λ a. a.success) same, ap (λ a. a.header) same)
  echoed server stream server_fd m ack fd output e uncut laws back fits fits_data w' ack' reply more
        parts (whole long same) =
      let pb = pack G m.header G.fresh in
      let sent_back =
        reply-Request G server stream server_fd m fits fits_data output reply more e uncut parts
          long in
      inl (
        ap (λ a. a.success) same,
        ap (λ a. a.header) same
            ∙ ap (λ bs. unpack G (G.parse bs pb)) sent_back
            ∙ back pb
            ∙ unpack-pack G laws m.header G.fresh,
      )

  -- PushData over TCP, where the bytes that arrive are the first of what a server that answers each
  -- RPC with its header sends for this request, with nothing read in vain, and the fields of a
  -- header survive the way into bytes and back, where the header and the meta header fit the send
  -- buffer and the data is below 2^32 bytes, with fuel for the bytes and the delays: it returns, or
  -- aborts only where SO_ERROR cannot be read or a call of send failed for good before all of a
  -- buffer was taken. A success brings back the header
  -- that was sent, and without one the acknowledgement's header stays.
  pub push_data-Acked :
      (server : Kernel) (stream : Stream server) (server_fd : ℤ) (fuel : ℕ) (w : World) (fd : ℤ)
      (m : BwMessage) (ack : BwAck) (more : List ℕ)
      (e : Echo server stream server_fd (request G m) (incoming w fd ++ more))
      → IsUncut e
      → HeaderLaws G
      → IsReadBack G
      → length (header_bytes G m) + 8 ≤ 4_194_304
      → length m.content < 2 ^ 32
      → length (header_bytes G m) + 8 + length m.content + patience w fd < fuel
      → Post (Breaks G K S L fd) (λ r. Acked m ack r.0) (push_data G K fuel w fd m ack)
  push_data-Acked server stream server_fd fuel w fd m ack more e uncut laws back fits fits_data
        enough =
      Post-mono (Breaks G K S L fd) (Pushed G K S L w fd m ack) (λ r. Acked m ack r.0) _
        (push_data-Pushed G K S L fuel w fd m ack fits enough)
        (λ r p.
          echoed server stream server_fd m ack fd _ e uncut laws back (omega arith) fits_data r.1
            r.0 p.reply (incoming r.1 fd ++ more)
            (ap (λ bs. bs ++ more) p.read ∙ append_assoc p.reply (incoming r.1 fd) more) p.acked)
