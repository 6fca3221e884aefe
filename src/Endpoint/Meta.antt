-- ===== src/Endpoint/Meta.antt =====
-- ReceiveMeta takes an idle endpoint into an RPC.
use rpc_bench.Common.{
  ℕ, ◌+◌, ◌<◌, ◌≡◌, sym, ◌∙◌, subst, ◌⊎◌, inl, inr, ℤ, List, [], ◌++◌, Bool, true, false, ltb,
  length, drop, Bytes, All-left, done, Post, Post-mono, Post-bind, Post-causes, arith, Bool-cases,
}
use rpc_bench.Kernel.{Kernel}
use rpc_bench.Kernel.Laws.{Stream, InterestList, Memory}
use rpc_bench.Socket.Growth.{Unread, Aborts, unread, NoMore, GrownTo}
use rpc_bench.Socket.Streams.{recv_all-Grown}
use rpc_bench.Endpoint.{Endpoint}
use rpc_bench.Endpoint.Receive.{decode_u32, prepare, receive_meta}
use rpc_bench.Endpoint.Idle.{Idle}
use rpc_bench.Endpoint.Preparing.{Begun, IsTrue, prepare-Begun}

module _ (K : Kernel) (S : Stream K) (L : InterestList K) (M : Memory K) where
  open K use {World}
  open S use {incoming, sent, patience}
  open L use {registered}

  -- Less than a meta header came before the stream ended or failed: the endpoint is idle as before.
  abbrev pub Short : ℤ → ℕ → ℕ → List ℕ → List ℕ → Endpoint World → Type 0
  Short fd n m input output c =
      Idle K S L fd n m c
      × ((bits : List ℕ) × (length bits < 8)
          × (input ≡ bits ++ incoming c.process.world c.sock)
          × NoMore K c.sock 8 bits c.process.world)
      × (sent c.process.world c.sock ≡ output)

  abbrev pub MetaStep : ℤ → ℕ → ℕ → List ℕ → List ℕ → Bool × Endpoint World → Type 0
  MetaStep fd n m input output (true, c) =
      (meta : List ℕ) × (length meta ≡ 8) × Begun K S L M fd n m input output meta c
  MetaStep fd n m input output (false, c) = Short fd n m input output c

  after_meta :
      (fd : ℤ) (n m : ℕ) (input output : List ℕ) (c : Endpoint World)
      → Idle K S L fd n m c
      → incoming c.process.world c.sock ≡ input
      → sent c.process.world c.sock ≡ output
      → Bytes input
      → (buf : List ℕ) (w : World) → GrownTo K S L c.process.world c.sock 8 [] (buf, w)
      → Post (Aborts K) (MetaStep fd n m input output) (
          let c' = record c { process = record c.process { world = w } } in
          elim (ltb (length buf) 8) [
            | true ↦ done (false, c')
            | false ↦ prepare K c' (decode_u32 buf) (decode_u32 (drop 4 buf))
          ])
  after_meta fd n m input output c idle inp out bytes buf w (g, why) =
      let c' = record c { process = record c.process { world = w } } in
      let still : Idle K S L fd n m c' = record {
        linked = record {
          on = idle.linked.on;
          known = g.known c.epfd c.sock ∙ idle.linked.known;
          valid = idle.linked.valid;
        };
        header_owner = idle.header_owner;
        data_owner = idle.data_owner;
        distinct = idle.distinct;
        header_view = idle.header_view;
        data_view = idle.data_view;
        header_fits = idle.header_fits;
        data_fits = idle.data_fits;
        reply_free = idle.reply_free;
        queue = idle.queue;
        state = idle.state;
      } in
      let split : input ≡ buf ++ incoming w c.sock = sym inp ∙ g.stream in
      elim (Bool-cases (ltb (length buf) 8)) [
        | inl short ↦
            rw short (still, (buf, ground arith, split, stopped (ground arith) why), g.unsent ∙ out)
        | inr full ↦
            let eight : length buf ≡ 8 = ground (arith, g.room) in
            rw full (
              Post-mono (Aborts K) (λ r. IsTrue K S L M r (Begun K S L M fd n m input output buf))
                (MetaStep fd n m input output) _
                (prepare-Begun K S L M fd n m input output buf c' still eight
                  (All-left _ buf (incoming w c.sock) (subst Bytes split bytes)) split
                  (g.unsent ∙ out))
                (begun buf eight))
      ]
    where
      begun :
          (meta : List ℕ)
          → length meta ≡ 8
          → (r : Bool × Endpoint World) → IsTrue K S L M r (Begun K S L M fd n m input output meta)
          → MetaStep fd n m input output r
      begun meta eight (true, c'') (e, b) = (meta, eight, b)
      begun meta eight (false, c'') (e, b) = cc

      stopped :
          length buf < 8 → (length buf ≡ 8) ⊎ NoMore K c.sock 8 buf w → NoMore K c.sock 8 buf w
      stopped few (inl full) = absurd (omega arith)
      stopped few (inr more) = more

  -- ReceiveMeta on an idle endpoint, with fuel for eight bytes and the delays to come.
  pub receive_meta-MetaStep :
      (fuel : ℕ) (fd : ℤ) (n m : ℕ) (input output : List ℕ) (c : Endpoint World)
      → Idle K S L fd n m c
      → incoming c.process.world c.sock ≡ input
      → sent c.process.world c.sock ≡ output
      → Bytes input
      → 8 + patience c.process.world c.sock < fuel
      → Post (Aborts K) (MetaStep fd n m input output) (receive_meta K fuel c)
  unfolding receive_meta
  receive_meta-MetaStep fuel fd n m input output c idle inp out bytes enough =
      Post-bind (Aborts K) (GrownTo K S L c.process.world c.sock 8 [])
        (MetaStep fd n m input output) _ _
        (Post-causes (Unread K) (Aborts K) (GrownTo K S L c.process.world c.sock 8 []) _
          (recv_all-Grown K S L fuel c.process.world c.sock 8 [] (omega arith) enough) unread)
        (λ r g. after_meta fd n m input output c idle inp out bytes r.0 r.1 g)
