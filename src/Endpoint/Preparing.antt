-- ===== src/Endpoint/Preparing.antt =====
-- Before an RPC, in ReceiveMeta of src/socket/bw_server_endpoint.cc: the owners and the views for its
-- header and its data.
use rpc_bench.Common.{
  ℕ, ◌<◌, ◌^◌, ◌≡◌, refl, sym, ap, ◌∙◌, subst, inl, inr, ℤ, List, ◌++◌, Option, some, Bool, true,
  length, drop, Bytes, append-nil, All-drop, done, Post, Post-bind, Post-causes, deref, arith,
  ◌>>=◌,
}
use rpc_bench.Kernel.{Kernel}
use rpc_bench.Kernel.Laws.{Stream, InterestList, Memory}
use rpc_bench.Heap.{Heap}
use rpc_bench.Buffer.{Buffer, view}
use rpc_bench.Socket.Growth.{Unallocated, Aborts, unallocated}
use rpc_bench.Endpoint.{Endpoint, meta_recved, drop_buffer}
use rpc_bench.Endpoint.Receive.{decode_u32, prepare}
use rpc_bench.Endpoint.Frames.{Exchange, Partly}
use rpc_bench.Endpoint.Idle.{
  Owner, IsBlockOf, Ensured, ensure_owner-Ensured, owned_below, drop_buffer-Borrowed, Idle,
  decode_u32-lt,
}

module _ (K : Kernel) (S : Stream K) (L : InterestList K) (M : Memory K) where
  open K use {World}
  open S use {incoming, sent, patience}
  open L use {registered}

  -- The RPC that begins with `meta` on an idle endpoint.
  abbrev pub begin : ℤ → ℕ → ℕ → List ℕ → List ℕ → List ℕ → ℕ → ℕ → Exchange
  begin fd n m input output meta x y = record {
    fd = fd;
    input = input;
    output = output;
    meta = meta;
    header_block = x;
    data_block = y;
    old_header = n;
    old_data = m;
  }

  abbrev pub Begun : ℤ → ℕ → ℕ → List ℕ → List ℕ → List ℕ → Endpoint World → Type 0
  Begun fd n m input output meta c =
      (x : ℕ) × (y : ℕ) × (hb : List ℕ) × (db : List ℕ) × Partly K S L
        (begin fd n m input output meta x y) meta_recved hb db 0 0 c

  abbrev pub IsTrue : Bool × Endpoint World → (Endpoint World → Type 0) → Type 0
  IsTrue (b, c) P = (b ≡ true) × P c

  header-not_data :
      (fd : ℤ) (n m size : ℕ) (c : Endpoint World) (r : Option Buffer × Heap)
      → Idle K S L fd n m c
      → (e : Ensured c.process.heap c.header_buffer_owner n size r)
      → ¬ IsBlockOf c.data_buffer_owner e.block_number
  header-not_data fd n m size c r idle e own = elim e.origin [
    | inl old ↦ idle.distinct e.block_number old own
    | inr new ↦ absurd (
        omega (
          arith,
          owned_below c.process.heap c.data_buffer_owner m idle.data_owner e.block_number own,
        ))
  ]

  content_kept :
      (fd : ℤ) (n m size : ℕ) (c : Endpoint World) (r : Option Buffer × Heap)
      → Idle K S L fd n m c
      → Ensured c.process.heap c.header_buffer_owner n size r
      → Owner r.1 c.data_buffer_owner m
  content_kept fd n m size c r idle e = elim idle.data_owner [
    | inl nothing ↦ inl nothing
    | inr (b, block, own, held, l) ↦
        inr (
          b,
          block,
          own,
          e.others b block (λ mine. idle.distinct b mine (length block, own)) held,
          l,
        )
  ]

  finish_prepare :
      (fd : ℤ) (n m hs ds : ℕ) (input output meta : List ℕ) (c : Endpoint World)
      → Idle K S L fd n m c
      → length meta ≡ 8
      → hs ≡ decode_u32 meta
      → ds ≡ decode_u32 (drop 4 meta)
      → hs < 2 ^ 32
      → ds < 2 ^ 32
      → input ≡ meta ++ incoming c.process.world c.sock
      → sent c.process.world c.sock ≡ output
      → (o₁ : Option Buffer) (h₁ : Heap)
      → Ensured c.process.heap c.header_buffer_owner n hs (o₁, h₁)
      → (o₂ : Option Buffer) (h₂ : Heap) → Ensured h₁ c.data_buffer_owner m ds (o₂, h₂)
      → Post
          (Aborts K)
          (λ r. IsTrue r (Begun fd n m input output meta))
          (deref o₁ >>= λ header. deref o₂ >>= λ content. done (
            true,
            record c {
              process = record c.process {
                heap = drop_buffer (drop_buffer h₂ c.header_buffer) c.data_buffer;
              };
              header_buffer_owner = o₁;
              data_buffer_owner = o₂;
              header_buffer = some (view header);
              data_buffer = some (view content);
              state = meta_recved;
            },
          ))
  unfolding view
  finish_prepare fd n m hs ds input output meta c idle eight hdr dat hfits dfits inp out o₁ h₁ e₁ o₂
        h₂ e₂ =
      let foreign = header-not_data fd n m hs c (o₁, h₁) idle e₁ in
      let dropped : drop_buffer (drop_buffer h₂ c.header_buffer) c.data_buffer ≡ h₂ =
        ap (λ h. drop_buffer h c.data_buffer)
          (drop_buffer-Borrowed h₂ c.header_buffer idle.header_view)
        ∙ drop_buffer-Borrowed h₂ c.data_buffer idle.data_view in
      rw (e₁.owner, e₂.owner, dropped)
        (
          refl,
          (
            e₁.block_number,
            e₂.block_number,
            e₁.block,
            e₂.block,
            record {
              during = record {
                linked = record {
                  on = idle.linked.on;
                  known = idle.linked.known;
                  valid = idle.linked.valid;
                };
                held = record {
                  header_owner = refl;
                  data_owner = refl;
                  header_view = refl;
                  data_view = refl;
                  header_holds = e₂.others e₁.block_number e₁.block foreign e₁.holds;
                  data_holds = e₂.holds;
                  distinct = λ same. elim e₂.origin [
                    | inl old ↦ foreign (subst (IsBlockOf c.data_buffer_owner) (sym same) old)
                    | inr new ↦ omega (arith, same, e₁.holds.1)
                  ];
                  header_fits = omega (arith, e₁.large, idle.header_fits);
                  data_fits = omega (arith, e₂.large, idle.data_fits);
                  header_part = omega arith;
                  data_part = omega arith;
                };
                state = refl;
                queue = idle.queue;
                reply_free = idle.reply_free;
                meta_length = eight;
                header_length = omega (arith, e₁.large, hdr);
                data_length = omega (arith, e₂.large, dat);
                stream = inp;
                replied = out ∙ sym (append-nil output);
              };
              in_order = inl refl;
              data_missing = ground arith;
              header_missing = inl refl;
            },
          ),
        )

  pub prepare-Begun :
      (fd : ℤ) (n m : ℕ) (input output meta : List ℕ) (c : Endpoint World)
      → Idle K S L fd n m c
      → length meta ≡ 8
      → Bytes meta
      → input ≡ meta ++ incoming c.process.world c.sock
      → sent c.process.world c.sock ≡ output
      → Post
          (Aborts K)
          (λ r. IsTrue r (Begun fd n m input output meta))
          (prepare K c (decode_u32 meta) (decode_u32 (drop 4 meta)))
  unfolding prepare
  prepare-Begun fd n m input output meta c idle eight bytes inp out =
      let hs = decode_u32 meta in
      let ds = decode_u32 (drop 4 meta) in
      let P = λ (r : Bool × Endpoint World). IsTrue r (Begun fd n m input output meta) in
      let p = c.process in
      Post-bind (Aborts K) (Ensured p.heap c.header_buffer_owner n hs) P _ _
        (Post-causes (Unallocated K) (Aborts K) (Ensured p.heap c.header_buffer_owner n hs) _
          (ensure_owner-Ensured K M p.world p.heap c.header_buffer_owner n hs idle.header_owner)
          unallocated)
        λ r₁ e₁.
          Post-bind (Aborts K) (Ensured r₁.1 c.data_buffer_owner m ds) P _ _
            (Post-causes (Unallocated K) (Aborts K) (Ensured r₁.1 c.data_buffer_owner m ds) _
              (ensure_owner-Ensured K M p.world r₁.1 c.data_buffer_owner m ds
                (content_kept fd n m hs c r₁ idle e₁))
              unallocated)
            λ r₂ e₂.
              finish_prepare fd n m hs ds input output meta c idle eight refl refl
                (decode_u32-lt meta bytes) (decode_u32-lt (drop 4 meta) (All-drop _ 4 meta bytes))
                inp out r₁.0 r₁.1 e₁ r₂.0 r₂.1 e₂
