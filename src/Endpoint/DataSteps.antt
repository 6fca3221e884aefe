-- ===== src/Endpoint/DataSteps.antt =====
-- ReceiveData of src/socket/bw_server_endpoint.cc reads more of the data; then a reply that is a
-- view on the header is ready.
use rpc_bench.Common.{
  ℕ, ◌+◌, ◌<◌, ◌≡◌, refl, sym, ap, ◌∙◌, subst, inl, inr, List, [], none, some, Bool, true, false,
  length, write_at, length-write_at, done, Post, Post-bind, deref, arith, ◌==◌, Bool-cases, ◌>>=◌,
}
use rpc_bench.Kernel.{Kernel, Reply, got, error}
use rpc_bench.Kernel.Laws.{Stream, InterestList, would_block}
use rpc_bench.Buffer.{is_clear, mark_handled, view}
use rpc_bench.Socket.Growth.{Aborts, recv_failed}
use rpc_bench.Socket.Transfer.{Process}
use rpc_bench.Endpoint.{Endpoint, State, data_recved, drop_buffer}
use rpc_bench.Endpoint.Receive.{read_data, receive_data, data_answer, data_complete}
use rpc_bench.Endpoint.Receiving.{RecvAt, recv_at-RecvAt, Waited-During, data_got-During, Delivered}
use rpc_bench.Endpoint.Frames.{mark_handled-window, Exchange, window, Held, During, Partly, AtData}

module _ (K : Kernel) (S : Stream K) (L : InterestList K) where
  open K use {World}

  -- ReceiveData says whether the data is complete; then the reply is ready.
  abbrev pub DataStep : Exchange → Bool × Endpoint World → Type 0
  DataStep g (true, c) = (hb : List ℕ) × (db : List ℕ) × AtData K S L g hb db c
  DataStep g (false, c) =
      (st : State) × (hb : List ℕ) × (db : List ℕ) × (j : ℕ) × Partly K S L g st hb db (length hb) j
        c

  -- All the data is in: the reply is a fresh view on the header.
  data_complete-AtData :
      (g : Exchange) (st : State) (hb db : List ℕ) (c : Endpoint World)
      → During K S L g st hb db (length hb) (length db) [] none [] c
      → Post (Aborts K) (λ c'. AtData K S L g hb db c') (data_complete K c)
  unfolding data_complete drop_buffer view
  data_complete-AtData g st hb db c d =
      let dropped : drop_buffer c.process.heap c.reply_buffer ≡ c.process.heap =
        ap (drop_buffer c.process.heap) d.reply_free in
      subst
        (λ o.
          Post (Aborts K) (λ c'. AtData K S L g hb db c')
            (deref o >>= λ header. done (record c {
              state = data_recved;
              reply_buffer = some (view header);
              process = record c.process { heap = drop_buffer c.process.heap c.reply_buffer };
            })))
        (sym d.held.header_view)
        (record {
          linked = record { on = d.linked.on; known = d.linked.known; valid = d.linked.valid };
          held =
              subst
                (λ h.
                  Held g hb db (length hb) (length db) h c.header_buffer_owner c.data_buffer_owner
                    c.header_buffer c.data_buffer)
                (sym dropped) d.held;
          state = refl;
          queue = d.queue;
          reply_free = refl;
          meta_length = d.meta_length;
          header_length = d.header_length;
          data_length = d.data_length;
          stream = d.stream;
          replied = d.replied;
        })

  -- The endpoint after more of the data came in.
  abbrev with_data : Endpoint World → Process World → ℕ → ℕ → ℕ → Endpoint World
  with_data c q a n k = record c { process = q; data_buffer = some (window a n k) }

  -- More bytes are in the data block; `b` says whether it is full.
  data_moved :
      (g : Exchange) (st : State) (hb db bytes : List ℕ) (j : ℕ) (c : Endpoint World)
      (q : Process World)
      → Partly K S L g st hb db (length hb) j c
      → Delivered K S L c.process c.sock g.data_block j db bytes q
      → (b : Bool) → (length db == j + length bytes) ≡ b
      → Post (Aborts K) (DataStep g) (
          let c' = with_data c q g.data_block (length db) (j + length bytes) in
          elim b [
            | true ↦ data_complete K c' >>= λ c''. done (true, c'')
            | false ↦ done (false, c')
          ])
  data_moved g st hb db bytes j c q p d true e =
      let c' = with_data c q g.data_block (length db) (j + length bytes) in
      let new = write_at j bytes db in
      let full : j + length bytes ≡ length new =
        ground (arith, length-write_at j bytes db d.fits) in
      Post-bind (Aborts K) (λ c''. AtData K S L g hb new c'') (DataStep g) _
        (λ c''. done (true, c''))
        (data_complete-AtData g st hb new c' (
          subst (λ m. During K S L g st hb new (length hb) m [] none [] c') full
            (data_got-During K S L g st hb db bytes j c q p.during d)))
        (λ c'' a. (hb, new, a))
  data_moved g st hb db bytes j c q p d false e =
      let len = length-write_at j bytes db d.fits in
      (
        st,
        hb,
        write_at j bytes db,
        j + length bytes,
        record {
          during = data_got-During K S L g st hb db bytes j c q p.during d;
          in_order = inr refl;
          data_missing = inl (ground (arith, len, d.fits));
          header_missing = p.header_missing;
        },
      )

  data_answer-DataStep :
      (g : Exchange) (st : State) (hb db : List ℕ) (j : ℕ) (c : Endpoint World)
      → Partly K S L g st hb db (length hb) j c
      → j < length db
      → (r : Reply ℕ × Process World) → RecvAt K S L c.process c.sock g.data_block j db r
      → Post
          (Aborts K)
          (DataStep g)
          (data_answer K (record c { process = r.1 }) (window g.data_block (length db) j) r.0)
  unfolding data_answer is_clear
  data_answer-DataStep g st hb db j c p missing (error errno, q) (w, (n, failed)) =
      elim (Bool-cases (would_block errno)) [
        | inr hard ↦ rw (hard, data_answer) (recv_failed c.process.world c.sock n errno failed hard)
        | inl again ↦
            let short : (length db == j) ≡ false = ground arith in
            rw (again, data_answer)
              (subst (λ b. DataStep g (b, record c { process = q })) (sym short)
                (
                  st,
                  hb,
                  db,
                  j,
                  record {
                    during = Waited-During K S L g st hb db (length hb) j [] none [] c q p.during w;
                    in_order = p.in_order;
                    data_missing = p.data_missing;
                    header_missing = p.header_missing;
                  },
                ))
      ]
  data_answer-DataStep g st hb db j c p missing (got n, q) (bytes, e, d) =
      subst
        (λ b. Post (Aborts K) (DataStep g) (
          let c' = record c { process = q; data_buffer = some b } in
          elim (is_clear b) [
            | true ↦ data_complete K c' >>= λ c''. done (true, c'')
            | false ↦ done (false, c')
          ]))
        (sym (
          ap (λ m. mark_handled m (window g.data_block (length db) j)) e
          ∙ mark_handled-window g.data_block (length db) j (length bytes)
              (omega (arith, d.fits, p.during.held.data_fits))))
        (data_moved g st hb db bytes j c q p d _ refl)

  read_data-DataStep :
      (g : Exchange) (st : State) (hb db : List ℕ) (j : ℕ) (c : Endpoint World)
      → Partly K S L g st hb db (length hb) j c
      → Post (Aborts K) (DataStep g) (read_data K c (window g.data_block (length db) j))
  unfolding read_data
  read_data-DataStep g st hb db j c p =
      let h = p.during.held in
      elim (Bool-cases (length db == 0)) [
        | inl none_asked ↦
            let all : j ≡ length db = ground (arith, h.data_part) in
            rw (none_asked, read_data)
              (Post-bind (Aborts K) (λ c'. AtData K S L g hb db c') (DataStep g) _
                (λ c'. done (true, c'))
                (data_complete-AtData g st hb db c
                  (subst (λ m. During K S L g st hb db (length hb) m [] none [] c) all p.during))
                (λ c' a. (hb, db, a)))
        | inr some_asked ↦
            let missing : j < length db = ground (arith, p.data_missing) in
            rw (some_asked, read_data)
              (Post-bind (Aborts K) (RecvAt K S L c.process c.sock g.data_block j db) (DataStep g) _
                _
                (recv_at-RecvAt K S L c.process c.sock g.data_block j db h.data_holds h.data_part
                  h.data_fits)
                (λ r d. data_answer-DataStep g st hb db j c p missing r d))
      ]

  -- ReceiveData on an RPC whose header is complete.
  pub receive_data-DataStep :
      (g : Exchange) (st : State) (hb db : List ℕ) (j : ℕ) (c : Endpoint World)
      → Partly K S L g st hb db (length hb) j c
      → Post (Aborts K) (DataStep g) (receive_data K c)
  unfolding receive_data
  receive_data-DataStep g st hb db j c p =
      subst (λ o. Post (Aborts K) (DataStep g) (deref o >>= λ b. read_data K c b))
        (sym p.during.held.data_view) (read_data-DataStep g st hb db j c p)
