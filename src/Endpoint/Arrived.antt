-- ===== src/Endpoint/Arrived.antt =====
-- OnRecvReady of src/socket/bw_server_endpoint.cc when all of an RPC has arrived.
use rpc_bench.Common.{
  IfDone, IfDone-bind, IfDone-last, Post-both, ℕ, ◌+◌, ◌-◌, ◌≤◌, ◌<◌, ◌≡◌, refl, sym, ap, ◌∙◌,
  subst, inl, inr, ℤ, List, ◌++◌, Bool, true, max, length, take, drop, length-append, length-take,
  take-append_exact, Bytes, deref, ◌>>=◌, ◌==◌, leb, Bool-cases, Post, Post-mono, arith,
}
use rpc_bench.Kernel.{Kernel, Reply}
use rpc_bench.Kernel.Laws.{Stream, InterestList, Memory, bytes_of}
use rpc_bench.Socket.Growth.{Aborts, NoMore, at_end, failed}
use rpc_bench.Socket.Transfer.{Process}
use rpc_bench.Endpoint.{Endpoint, State, meta_recved}
use rpc_bench.Endpoint.Receive.{
  decode_u32, read_header, receive_header, data_complete, read_data, receive_data,
  from_header_recved, from_meta_recved, from_new_rpc, dispatch, on_recv_ready,
}
use rpc_bench.Endpoint.Frames.{Exchange, Partly, Answered}
use rpc_bench.Endpoint.HeaderSteps.{HeaderStep, receive_header-HeaderStep}
use rpc_bench.Endpoint.DataSteps.{DataStep, receive_data-DataStep}
use rpc_bench.Endpoint.Idle.{Idle}
use rpc_bench.Endpoint.Preparing.{begin}
use rpc_bench.Endpoint.Meta.{MetaStep, receive_meta-MetaStep}
use rpc_bench.Endpoint.Rpc.{Enough, and_then-Post, from_data_recved-Answered}
use rpc_bench.Endpoint.Delivery.{IsPrompt, recv_at-full, answer_header-full, answer_data-full}

module _ (K : Kernel) (S : Stream K) (L : InterestList K) where
  open K use {World}
  open S use {incoming, sent, patience}

  -- All of the RPC is in what was to be received.
  abbrev pub IsThere : Exchange → Type 0
  IsThere g =
      8 + max g.old_header (decode_u32 g.meta) + max g.old_data (decode_u32 (drop 4 g.meta))
      ≤ length g.input

  left-Partly :
      (g : Exchange) (st : State) (hb db : List ℕ) (i j : ℕ) (c : Endpoint World)
      → Partly K S L g st hb db i j c
      → length g.input ≡ 8 + (i + (j + length (incoming c.process.world c.sock)))
  left-Partly g st hb db i j c p =
      let d = p.during in
      let rest = incoming c.process.world c.sock in
      omega (
        arith,
        ap length d.stream,
        d.meta_length,
        d.held.header_part,
        d.held.data_part,
        length-append g.meta (take i hb ++ (take j db ++ rest)),
        length-append (take i hb) (take j db ++ rest),
        length-append (take j db) rest,
        length-take i hb,
        length-take j db,
      )

  receive_header-full :
      (g : Exchange) (st : State) (hb db : List ℕ) (i j : ℕ) (c : Endpoint World)
      → IsPrompt K S
      → Partly K S L g st hb db i j c
      → IsThere g
      → IfDone (λ s. s.0 ≡ true) (receive_header K c)
  unfolding receive_header read_header
  receive_header-full g st hb db i j c prompt p there =
      let h = p.during.held in
      subst (λ o. IfDone (λ s. s.0 ≡ true) (deref o >>= λ b. read_header K c b)) (sym h.header_view)
        (IfDone-bind {A = Reply ℕ × Process World} _ (λ s. s.0 ≡ true) _ _
          (recv_at-full K S c.process c.sock g.header_block i hb prompt h.header_part h.header_fits
            (omega (
              arith,
              there,
              left-Partly g st hb db i j c p,
              h.data_part,
              p.during.header_length,
              p.during.data_length,
            )))
          (λ r e.
            answer_header-full K S _ g.header_block (length hb) i r.0 h.header_part h.header_fits
              e))

  receive_data-full :
      (g : Exchange) (st : State) (hb db : List ℕ) (j : ℕ) (c : Endpoint World)
      → IsPrompt K S
      → Partly K S L g st hb db (length hb) j c
      → IsThere g
      → IfDone (λ s. s.0 ≡ true) (receive_data K c)
  unfolding receive_data read_data
  receive_data-full g st hb db j c prompt p there =
      let h = p.during.held in
      subst (λ o. IfDone (λ s. s.0 ≡ true) (deref o >>= λ b. read_data K c b)) (sym h.data_view)
        (elim (Bool-cases (length db == 0)) [
          | inl none_asked ↦
              rw (none_asked, read_data)
                (IfDone-last {B = Bool × Endpoint World} (λ s. s.0 ≡ true) (data_complete K c)
                  (λ c'. (true, c')) (λ c'. refl))
          | inr some_asked ↦
              rw (some_asked, read_data)
                (IfDone-bind {A = Reply ℕ × Process World} _ (λ s. s.0 ≡ true) _ _
                  (recv_at-full K S c.process c.sock g.data_block j db prompt h.data_part
                    h.data_fits
                    (omega (
                      arith,
                      there,
                      left-Partly g st hb db (length hb) j c p,
                      p.during.header_length,
                      p.during.data_length,
                    )))
                  (λ r e.
                    answer_data-full K S _ g.data_block (length db) j r.0 h.data_part h.data_fits
                      e))
        ])

  -- The RPC was answered.
  abbrev pub Replied : Exchange → Endpoint World → Type 0
  Replied g c = (hb : List ℕ) × (db : List ℕ) × Answered K S L g hb db c

  from_header_recved-Replied :
      (fuel : ℕ) (g : Exchange) (st : State) (hb db : List ℕ) (j : ℕ) (c : Endpoint World)
      → IsPrompt K S
      → Partly K S L g st hb db (length hb) j c
      → IsThere g
      → Enough K S L g fuel
      → Post (Aborts K) (Replied g) (from_header_recved K fuel c)
  unfolding from_header_recved
  from_header_recved-Replied fuel g st hb db j c prompt p there enough =
      and_then-Post K S L (λ r. DataStep K S L g r × (r.0 ≡ true)) (Replied g) _ _
        (Post-both (Aborts K) (DataStep K S L g) (λ r. r.0 ≡ true) _
          (receive_data-DataStep K S L g st hb db j c p)
          (receive_data-full g st hb db j c prompt p there))
        (λ c' ((hb', db', d), e).
          Post-mono (Aborts K) (Answered K S L g hb' db') (Replied g) _
            (from_data_recved-Answered K S L fuel g hb' db' c' d enough) (λ c'' a. (hb', db', a)))
        (λ c' (d, e). absurd (cc))

  from_meta_recved-Replied :
      (fuel : ℕ) (g : Exchange) (st : State) (hb db : List ℕ) (i j : ℕ) (c : Endpoint World)
      → IsPrompt K S
      → Partly K S L g st hb db i j c
      → IsThere g
      → Enough K S L g fuel
      → Post (Aborts K) (Replied g) (from_meta_recved K fuel c)
  unfolding from_meta_recved
  from_meta_recved-Replied fuel g st hb db i j c prompt p there enough =
      and_then-Post K S L (λ r. HeaderStep K S L g db j r × (r.0 ≡ true)) (Replied g) _ _
        (Post-both (Aborts K) (HeaderStep K S L g db j) (λ r. r.0 ≡ true) _
          (receive_header-HeaderStep K S L g st hb db i j c p)
          (receive_header-full g st hb db i j c prompt p there))
        (λ c' ((st', hb', p'), e).
          from_header_recved-Replied fuel g st' hb' db j c' prompt p' there enough)
        (λ c' (d, e). absurd (cc))

  -- The stream does not end within a meta header that is there.
  short-never :
      (fd : ℤ) (input bits : List ℕ) (w' : World)
      → IsPrompt K S
      → length bits < 8
      → input ≡ bits ++ incoming w' fd
      → 8 ≤ length input
      → ¬ NoMore K fd 8 bits w'
  short-never fd input bits w' prompt few split there (at_end w e) =
      elim (Bool-cases (leb (8 - length bits) (length (incoming w fd)))) [
        | inl more ↦
            let some_left : 8 - length bits ≤ length (incoming w fd) = ground arith in
            absurd (
              omega (
                arith,
                ap (λ r. length (bytes_of r))
                    (sym (prompt w fd (8 - length bits) some_left) ∙ ap (λ r. r.0) e),
                length-take (8 - length bits) (incoming w fd),
              ))
        | inr no_more ↦
            let none_left : length (incoming w fd) < 8 - length bits = ground arith in
            absurd (
              omega (
                arith,
                ap length split,
                length-append bits (incoming w' fd),
                ap length (S.recv_incoming w fd (8 - length bits)),
                ap (λ r. length (bytes_of r.0 ++ incoming r.1 fd)) e,
              ))
      ]
  short-never fd input bits w' prompt few split there (failed w w₁ code e hard after) =
      elim (Bool-cases (leb (8 - length bits) (length (incoming w fd)))) [
        | inl more ↦
            let some_left : 8 - length bits ≤ length (incoming w fd) = ground arith in
            let clash = sym (prompt w fd (8 - length bits) some_left) ∙ ap (λ r. r.0) e in
            absurd (cc)
        | inr no_more ↦
            let none_left : length (incoming w fd) < 8 - length bits = ground arith in
            absurd (
              omega (
                arith,
                ap length split,
                length-append bits (incoming w' fd),
                ap length (S.recv_incoming w fd (8 - length bits)),
                ap (λ r. length (bytes_of r.0 ++ incoming r.1 fd)) e,
                ap length (S.getsockopt_incoming w₁ fd 4 fd),
                ap (λ v. length (incoming v fd)) after,
              ))
      ]

  from_new_rpc-Replied :
      (fuel : ℕ) (fd : ℤ) (n m : ℕ) (input output : List ℕ) (c : Endpoint World) (M : Memory K)
      → IsPrompt K S
      → Idle K S L fd n m c
      → incoming c.process.world c.sock ≡ input
      → sent c.process.world c.sock ≡ output
      → Bytes input
      → 8 + patience c.process.world c.sock < fuel
      → max n (decode_u32 (take 8 input)) + 2 ≤ fuel
      → 8 + max n (decode_u32 (take 8 input)) + max m (decode_u32 (drop 4 (take 8 input)))
        ≤ length input
      → Post
          (Aborts K)
          (λ c'.
            (x : ℕ) × (y : ℕ) × Replied (begin K S L M fd n m input output (take 8 input) x y) c')
          (from_new_rpc K fuel c)
  unfolding from_new_rpc
  from_new_rpc-Replied fuel fd n m input output c M prompt idle inp out bytes patient enough there =
      and_then-Post K S L (MetaStep K S L M fd n m input output) _ _ (from_meta_recved K fuel)
        (receive_meta-MetaStep K S L M fuel fd n m input output c idle inp out bytes patient)
        (λ c' (meta, eight, (x, y, hb, db, p)).
          let same : meta ≡ take 8 input =
            sym (take-append_exact 8 meta _ eight) ∙ ap (take 8) (sym p.during.stream) in
          Post-mono (Aborts K) (Replied (begin K S L M fd n m input output (take 8 input) x y)) _ _
            (from_meta_recved-Replied fuel (begin K S L M fd n m input output (take 8 input) x y)
              meta_recved hb db 0 0 c' prompt
              (subst
                (λ b.
                  Partly K S L (begin K S L M fd n m input output b x y) meta_recved hb db 0 0 c')
                same p)
              there enough)
            (λ c'' r. (x, y, r)))
        (λ c' (still, (bits, few, split, why), unsent). absurd (
          short-never c'.sock input bits c'.process.world prompt few split (omega (arith, there))
            why))

  -- OnRecvReady on an idle endpoint, on a socket that hands out the bytes that are there when they
  -- are asked for, where the eight bytes of a meta header and all of the header and data that they
  -- and the owners ask for are there, with fuel for the delays and the header's bytes: unless the
  -- socket fails or memory is short, one call returns with the RPC of these eight bytes answered.
  -- Its header was sent, or the rest of it is queued with the socket registered for EPOLLOUT; it
  -- does not wait for more to arrive.
  pub on_recv_ready-Replied :
      (fuel : ℕ) (fd : ℤ) (n m : ℕ) (input output : List ℕ) (c : Endpoint World) (M : Memory K)
      → IsPrompt K S
      → Idle K S L fd n m c
      → incoming c.process.world c.sock ≡ input
      → sent c.process.world c.sock ≡ output
      → Bytes input
      → 8 + patience c.process.world c.sock < fuel
      → max n (decode_u32 (take 8 input)) + 2 ≤ fuel
      → 8 + max n (decode_u32 (take 8 input)) + max m (decode_u32 (drop 4 (take 8 input)))
        ≤ length input
      → Post
          (Aborts K)
          (λ c'.
            (x : ℕ) × (y : ℕ) × Replied (begin K S L M fd n m input output (take 8 input) x y) c')
          (on_recv_ready K fuel c)
  unfolding on_recv_ready dispatch
  on_recv_ready-Replied fuel fd n m input output c M prompt idle inp out bytes patient enough
        there =
      subst
        (λ s.
          Post (Aborts K)
            (λ c'.
              (x : ℕ) × (y : ℕ) × Replied (begin K S L M fd n m input output (take 8 input) x y) c')
            (dispatch K s fuel c))
        (sym idle.state)
        (from_new_rpc-Replied fuel fd n m input output c M prompt idle inp out bytes patient enough
          there)
