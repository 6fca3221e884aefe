-- ===== src/Endpoint/Rpc.antt =====
-- OnRecvReady from any point of an RPC.
use rpc_bench.Common.{
  ℕ, ◌+◌, ◌≤◌, ◌<◌, ◌≡◌, refl, sym, ap, ap₂, ◌∙◌, subst, inl, inr, ℤ, List, [], ◌∷◌, ◌++◌, none,
  Bool, true, false, max, length, Bytes, Outcome, done, Post, Post-mono, Post-bind, arith,
}
use rpc_bench.Kernel.{Kernel}
use rpc_bench.Kernel.Laws.{Stream, InterestList, Memory}
use rpc_bench.Socket.Growth.{Aborts}
use rpc_bench.Endpoint.{Endpoint, State, meta_recved, replying}
use rpc_bench.Endpoint.Send.{reply}
use rpc_bench.Endpoint.Receive.{
  decode_u32, and_then, from_data_recved, from_header_recved, from_meta_recved, from_new_rpc,
  dispatch, on_recv_ready,
}
use rpc_bench.Endpoint.Frames.{Exchange, Partly, AtData, AtReply, Finished, Answered}
use rpc_bench.Endpoint.Sending.{on_send_ready-Answered}
use rpc_bench.Endpoint.HeaderSteps.{HeaderStep, receive_header-HeaderStep}
use rpc_bench.Endpoint.DataSteps.{DataStep, receive_data-DataStep}
use rpc_bench.Endpoint.Idle.{Idle}
use rpc_bench.Endpoint.Preparing.{begin}
use rpc_bench.Endpoint.Meta.{Short, MetaStep, receive_meta-MetaStep}

pub decode_u32-append : (bs rest : List ℕ) → 4 ≤ length bs → decode_u32 (bs ++ rest) ≡ decode_u32 bs
unfolding decode_u32
decode_u32-append [] rest h = absurd (omega arith)
decode_u32-append (a ∷ []) rest h = absurd (omega arith)
decode_u32-append (a ∷ b ∷ []) rest h = absurd (omega arith)
decode_u32-append (a ∷ b ∷ c ∷ []) rest h = absurd (omega arith)
decode_u32-append (a ∷ b ∷ c ∷ d ∷ bs) rest h = refl

module _ (K : Kernel) (S : Stream K) (L : InterestList K) where
  open K use {World}
  open S use {incoming, sent, patience}

  -- if (!step) break;
  pub and_then-Post :
      (P : Bool × Endpoint World → Type 0) (Q : Endpoint World → Type 0)
      (step : Outcome (Bool × Endpoint World)) (next : Endpoint World → Outcome (Endpoint World))
      → Post (Aborts K) P step
      → ((c : Endpoint World) → P (true, c) → Post (Aborts K) Q (next c))
      → ((c : Endpoint World) → P (false, c) → Q c)
      → Post (Aborts K) Q (and_then K step next)
  unfolding and_then
  and_then-Post P Q step next h go stop = Post-bind (Aborts K) P Q step _ h cases
    where
      cases :
          (r : Bool × Endpoint World)
          → P r
          → Post (Aborts K) Q (elim r.0 [ true ↦ next r.1 | false ↦ done r.1 ])
      cases (true, c) p = go c p
      cases (false, c) p = stop c p

  -- The RPC is waiting for more bytes, or it was answered.
  pub data Served (g : Exchange) (c : Endpoint World) : Type 0 where
    waiting : (st : State) (hb db : List ℕ) (i j : ℕ) → Partly K S L g st hb db i j c → Served g c
    answered : (hb db : List ℕ) → Answered K S L g hb db c → Served g c

  -- Fuel for the reply of an RPC.
  abbrev pub Enough : Exchange → ℕ → Type 0
  Enough g fuel = max g.old_header (decode_u32 g.meta) + 2 ≤ fuel

  queued_reply :
      (g : Exchange) (hb db : List ℕ) (c : Endpoint World)
      → AtData K S L g hb db c
      → AtReply K S L g hb db 0 (record c {
        tx_queue = c.tx_queue ++ (c.reply_buffer ∷ []);
        reply_buffer = none;
        state = replying;
      })
  queued_reply g hb db c d = record {
    linked = record { on = d.linked.on; known = d.linked.known; valid = d.linked.valid };
    held = d.held;
    state = refl;
    queue = ap₂ (λ q r. q ++ (r ∷ [])) d.queue d.reply_free;
    reply_free = refl;
    meta_length = d.meta_length;
    header_length = d.header_length;
    data_length = d.data_length;
    stream = d.stream;
    replied = d.replied;
  }

  pub from_data_recved-Answered :
      (fuel : ℕ) (g : Exchange) (hb db : List ℕ) (c : Endpoint World)
      → AtData K S L g hb db c
      → Enough g fuel
      → Post (Aborts K) (Answered K S L g hb db) (from_data_recved K fuel c)
  unfolding from_data_recved reply
  from_data_recved-Answered fuel g hb db c d enough =
      and_then-Post (λ r. Answered K S L g hb db r.1) (Answered K S L g hb db) _ (λ c'. done c')
        (Post-bind (Aborts K) (Answered K S L g hb db) (λ r. Answered K S L g hb db r.1) _
          (λ c'. done (true, c'))
          (on_send_ready-Answered K S L fuel g hb db 0 _ (queued_reply g hb db c d) (omega arith)
            (omega (arith, d.header_length)))
          (λ c' a. a))
        (λ c' a. a) (λ c' a. a)

  from_header_recved-Served :
      (fuel : ℕ) (g : Exchange) (st : State) (hb db : List ℕ) (j : ℕ) (c : Endpoint World)
      → Partly K S L g st hb db (length hb) j c
      → Enough g fuel
      → Post (Aborts K) (Served g) (from_header_recved K fuel c)
  unfolding from_header_recved
  from_header_recved-Served fuel g st hb db j c p enough =
      and_then-Post (DataStep K S L g) (Served g) _ (from_data_recved K fuel)
        (receive_data-DataStep K S L g st hb db j c p)
        (λ c' (hb', db', d).
          Post-mono (Aborts K) (Answered K S L g hb' db') (Served g) _
            (from_data_recved-Answered fuel g hb' db' c' d enough) (λ c'' a. answered hb' db' a))
        (λ c' (st', hb', db', j', p'). waiting st' hb' db' (length hb') j' p')

  from_meta_recved-Served :
      (fuel : ℕ) (g : Exchange) (st : State) (hb db : List ℕ) (i j : ℕ) (c : Endpoint World)
      → Partly K S L g st hb db i j c
      → Enough g fuel
      → Post (Aborts K) (Served g) (from_meta_recved K fuel c)
  unfolding from_meta_recved
  from_meta_recved-Served fuel g st hb db i j c p enough =
      and_then-Post (HeaderStep K S L g db j) (Served g) _ (from_header_recved K fuel)
        (receive_header-HeaderStep K S L g st hb db i j c p)
        (λ c' (st', hb', p'). from_header_recved-Served fuel g st' hb' db j c' p' enough)
        (λ c' (st', hb', i', p'). waiting st' hb' db i' j p')

  -- OnRecvReady on an RPC of which the header or the data is incomplete returns, with fuel for the
  -- header's bytes, unless the socket fails: what it received went to its place in the header or
  -- data block in the stream's order, and the RPC still waits with nothing sent, or it was answered
  -- with its header.
  pub on_recv_ready-Served :
      (fuel : ℕ) (g : Exchange) (st : State) (hb db : List ℕ) (i j : ℕ) (c : Endpoint World)
      → Partly K S L g st hb db i j c
      → Enough g fuel
      → Post (Aborts K) (Served g) (on_recv_ready K fuel c)
  unfolding on_recv_ready dispatch
  on_recv_ready-Served fuel g st hb db i j c p enough = elim p.header_missing [
    | inl e ↦
        subst (λ s. Post (Aborts K) (Served g) (dispatch K s fuel c)) (sym (p.during.state ∙ e))
          (from_meta_recved-Served fuel g st hb db i j c p enough)
    | inr e ↦
        subst (λ s. Post (Aborts K) (Served g) (dispatch K s fuel c)) (sym (p.during.state ∙ e.0))
          (from_header_recved-Served fuel g st hb db j c
            (subst (λ n. Partly K S L g st hb db n j c) e.1 p) enough)
  ]

  module _ (M : Memory K) where
    -- What OnRecvReady makes of an idle endpoint.
    pub data Taken (fd : ℤ) (n m : ℕ) (input output : List ℕ) (c : Endpoint World) : Type 0 where
      short : Short K S L M fd n m input output c → Taken fd n m input output c
      begun :
          (meta : List ℕ) (x y : ℕ)
          → Served (begin K S L M fd n m input output meta x y) c
          → Taken fd n m input output c

    from_new_rpc-Taken :
        (fuel : ℕ) (fd : ℤ) (n m : ℕ) (input output : List ℕ) (c : Endpoint World)
        → Idle K S L fd n m c
        → incoming c.process.world c.sock ≡ input
        → sent c.process.world c.sock ≡ output
        → Bytes input
        → 8 + patience c.process.world c.sock < fuel
        → max n (decode_u32 input) + 2 ≤ fuel
        → Post (Aborts K) (Taken fd n m input output) (from_new_rpc K fuel c)
    unfolding from_new_rpc
    from_new_rpc-Taken fuel fd n m input output c idle inp out bytes patient enough =
        and_then-Post (MetaStep K S L M fd n m input output) (Taken fd n m input output) _
          (from_meta_recved K fuel)
          (receive_meta-MetaStep K S L M fuel fd n m input output c idle inp out bytes patient)
          (λ c' (meta, eight, (x, y, hb, db, p)).
            Post-mono (Aborts K) (Served (begin K S L M fd n m input output meta x y))
              (Taken fd n m input output) _
              (from_meta_recved-Served fuel (begin K S L M fd n m input output meta x y) meta_recved
                hb db 0 0 c' p (fits meta eight _ p.during.stream))
              (λ c'' s. begun meta x y s))
          (λ c' s. short s)
      where
        fits :
            (meta : List ℕ)
            → length meta ≡ 8
            → (rest : List ℕ) → input ≡ meta ++ rest
            → max n (decode_u32 meta) + 2 ≤ fuel
        fits meta eight rest e =
            omega (arith, enough, ap decode_u32 e, decode_u32-append meta rest (omega arith))

    -- OnRecvReady on an idle endpoint, with fuel for the delays and the header's bytes, returns
    -- unless the socket fails or memory is short: fewer than eight bytes of meta header came before
    -- the stream ended or failed, and the endpoint is idle with nothing sent, or an RPC began with the eight bytes of the stream
    -- as its meta header, in owners large enough for it, and it waits with nothing sent or was
    -- answered with its header.
    pub on_recv_ready-Taken :
        (fuel : ℕ) (fd : ℤ) (n m : ℕ) (input output : List ℕ) (c : Endpoint World)
        → Idle K S L fd n m c
        → incoming c.process.world c.sock ≡ input
        → sent c.process.world c.sock ≡ output
        → Bytes input
        → 8 + patience c.process.world c.sock < fuel
        → max n (decode_u32 input) + 2 ≤ fuel
        → Post (Aborts K) (Taken fd n m input output) (on_recv_ready K fuel c)
    unfolding on_recv_ready dispatch
    on_recv_ready-Taken fuel fd n m input output c idle inp out bytes patient enough =
        subst (λ s. Post (Aborts K) (Taken fd n m input output) (dispatch K s fuel c))
          (sym idle.state)
          (from_new_rpc-Taken fuel fd n m input output c idle inp out bytes patient enough)

  -- An answered RPC leaves the endpoint idle, with owners of the sizes that it used.
  pub Finished-Idle :
      (g : Exchange) (hb db : List ℕ) (c : Endpoint World)
      → Finished K S L g hb db c
      → Idle K S L g.fd (length hb) (length db) c
  Finished-Idle g hb db c f = record {
    linked = f.linked;
    header_owner = inr (g.header_block, hb, f.held.header_owner, f.held.header_holds, refl);
    data_owner = inr (g.data_block, db, f.held.data_owner, f.held.data_holds, refl);
    distinct = λ a (n, e) (m, e').
        f.held.distinct (ground (arith, f.held.header_owner, f.held.data_owner));
    header_view = inr (g.header_block, length hb, length hb, f.held.header_view);
    data_view = inr (g.data_block, length db, length db, f.held.data_view);
    header_fits = f.held.header_fits;
    data_fits = f.held.data_fits;
    reply_free = f.reply_free;
    queue = f.queue;
    state = f.state;
  }
