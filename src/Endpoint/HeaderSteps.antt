-- ===== src/Endpoint/HeaderSteps.antt =====
-- ReceiveHeader of src/socket/bw_server_endpoint.cc reads more of the header.
use rpc_bench.Common.{
  ℕ, ◌+◌, ◌≡◌, refl, sym, ap, ◌∙◌, subst, inl, inr, List, [], none, some, Bool, true, false, length,
  write_at, length-write_at, done, Post, Post-bind, deref, arith, ◌==◌, Bool-cases, ◌>>=◌,
  if◌then◌else◌,
}
use rpc_bench.Kernel.{Kernel, Reply, got, error}
use rpc_bench.Kernel.Laws.{Stream, InterestList, would_block}
use rpc_bench.Buffer.{is_clear, mark_handled}
use rpc_bench.Socket.Growth.{Aborts, recv_failed}
use rpc_bench.Socket.Transfer.{Process}
use rpc_bench.Endpoint.{Endpoint, State, header_recved}
use rpc_bench.Endpoint.Receive.{read_header, receive_header, header_answer}
use rpc_bench.Endpoint.Receiving.{
  RecvAt, recv_at-RecvAt, Waited-During, header_got-During, Delivered,
}
use rpc_bench.Endpoint.Frames.{mark_handled-window, Exchange, window, During, Partly}

module _ (K : Kernel) (S : Stream K) (L : InterestList K) where
  open K use {World}

  -- ReceiveHeader says whether the header is complete.
  abbrev pub HeaderStep : Exchange → List ℕ → ℕ → Bool × Endpoint World → Type 0
  HeaderStep g db j (true, c) =
      (st : State) × (hb : List ℕ) × Partly K S L g st hb db (length hb) j c
  HeaderStep g db j (false, c) =
      (st : State) × (hb : List ℕ) × (i : ℕ) × Partly K S L g st hb db i j c

  HeaderStep-of :
      (g : Exchange) (st : State) (hb db : List ℕ) (i j : ℕ) (c : Endpoint World)
      → Partly K S L g st hb db i j c
      → (b : Bool) → (length hb == i) ≡ b
      → HeaderStep g db j (b, c)
  HeaderStep-of g st hb db i j c p true e =
      (st, hb, subst (λ n. Partly K S L g st hb db n j c) (ground arith) p)
  HeaderStep-of g st hb db i j c p false e = (st, hb, i, p)

  -- The endpoint after more of the header came in.
  abbrev with_header : Endpoint World → Process World → ℕ → ℕ → ℕ → State → Endpoint World
  with_header c q a n k st = record c {
    process = q;
    header_buffer = some (window a n k);
    state = st;
  }

  -- More bytes are in the header block; `b` says whether it is full.
  header_moved :
      (g : Exchange) (st : State) (hb db bytes : List ℕ) (i j : ℕ) (c : Endpoint World)
      (q : Process World)
      → Partly K S L g st hb db i j c
      → Delivered K S L c.process c.sock g.header_block i hb bytes q
      → (b : Bool) → (length hb == i + length bytes) ≡ b
      → HeaderStep g db j (
        b,
        with_header c q g.header_block
            (length hb)
            (i + length bytes)
            (if b then header_recved else c.state),
      )
  header_moved g st hb db bytes i j c q p d true e =
      let len = length-write_at i bytes hb d.fits in
      let full : i + length bytes ≡ length (write_at i bytes hb) = ground (arith, len) in
      let next = header_got-During K S L g st header_recved hb db bytes i j c q p d in
      (
        header_recved,
        write_at i bytes hb,
        record {
          during =
              subst
                (λ m.
                  During K S L g header_recved (write_at i bytes hb) db m j [] none []
                    (with_header c q g.header_block (length hb) (i + length bytes) header_recved))
                full next;
          in_order = inr refl;
          data_missing = p.data_missing;
          header_missing = inr (refl, refl);
        },
      )
  header_moved g st hb db bytes i j c q p d false e =
      let len = length-write_at i bytes hb d.fits in
      (
        c.state,
        write_at i bytes hb,
        i + length bytes,
        record {
          during = header_got-During K S L g st c.state hb db bytes i j c q p d;
          in_order = elim p.in_order [ inl z ↦ inl z | inr f ↦ absurd (ground (arith, d.fits)) ];
          data_missing = p.data_missing;
          header_missing = elim p.header_missing [
            | inl m ↦ inl (p.during.state ∙ m)
            | inr h ↦ absurd (ground (arith, d.fits, h.1))
          ];
        },
      )

  header_answer-HeaderStep :
      (g : Exchange) (st : State) (hb db : List ℕ) (i j : ℕ) (c : Endpoint World)
      → Partly K S L g st hb db i j c
      → (r : Reply ℕ × Process World) → RecvAt K S L c.process c.sock g.header_block i hb r
      → Post
          (Aborts K)
          (HeaderStep g db j)
          (header_answer K (record c { process = r.1 }) (window g.header_block (length hb) i) r.0)
  unfolding header_answer is_clear
  header_answer-HeaderStep g st hb db i j c p (error errno, q) (w, (n, failed)) =
      elim (Bool-cases (would_block errno)) [
        | inr hard ↦
            rw (hard, header_answer) (recv_failed c.process.world c.sock n errno failed hard)
        | inl again ↦
            rw (again, header_answer)
              (HeaderStep-of g st hb db i j _
                (record {
                  during = Waited-During K S L g st hb db i j [] none [] c q p.during w;
                  in_order = p.in_order;
                  data_missing = p.data_missing;
                  header_missing = p.header_missing;
                })
                _ refl)
      ]
  header_answer-HeaderStep g st hb db i j c p (got n, q) (bytes, e, d) =
      subst
        (λ b. Post (Aborts K) (HeaderStep g db j) (
          done (
            is_clear b,
            record c {
              process = q;
              header_buffer = some b;
              state = if is_clear b then header_recved else c.state;
            },
          )))
        (sym (
          ap (λ m. mark_handled m (window g.header_block (length hb) i)) e
          ∙ mark_handled-window g.header_block (length hb) i (length bytes)
              (omega (arith, d.fits, p.during.held.header_fits))))
        (header_moved g st hb db bytes i j c q p d _ refl)

  read_header-HeaderStep :
      (g : Exchange) (st : State) (hb db : List ℕ) (i j : ℕ) (c : Endpoint World)
      → Partly K S L g st hb db i j c
      → Post (Aborts K) (HeaderStep g db j) (read_header K c (window g.header_block (length hb) i))
  unfolding read_header
  read_header-HeaderStep g st hb db i j c p =
      let h = p.during.held in
      Post-bind (Aborts K) (RecvAt K S L c.process c.sock g.header_block i hb) (HeaderStep g db j) _
        _
        (recv_at-RecvAt K S L c.process c.sock g.header_block i hb h.header_holds h.header_part
          h.header_fits)
        (λ r d. header_answer-HeaderStep g st hb db i j c p r d)

  -- ReceiveHeader on an RPC whose header or data is incomplete.
  pub receive_header-HeaderStep :
      (g : Exchange) (st : State) (hb db : List ℕ) (i j : ℕ) (c : Endpoint World)
      → Partly K S L g st hb db i j c
      → Post (Aborts K) (HeaderStep g db j) (receive_header K c)
  unfolding receive_header
  receive_header-HeaderStep g st hb db i j c p =
      subst (λ o. Post (Aborts K) (HeaderStep g db j) (deref o >>= λ b. read_header K c b))
        (sym p.during.held.header_view) (read_header-HeaderStep g st hb db i j c p)
