-- ===== src/Endpoint/SparedOwners.antt =====
-- ReceiveMeta of src/socket/bw_server_endpoint.cc touches its own socket and blocks alone.
use rpc_bench.Common.{
  ℕ, ◌≤◌, refl, ◌⊎◌, inl, inr, true, List, [], Option, none, some, done, ◌>>=◌, deref, drop, length,
  ltb, IfDone, IfDone-bind, IfDone-mono, Bool-cases, Option-cases, arith,
}
use rpc_bench.Kernel.{Kernel}
use rpc_bench.Kernel.Laws.{Stream, InterestList}
use rpc_bench.Kernel.Apart.{Spares, Apart, Spares-refl}
use rpc_bench.Heap.{Heap, Holds, alloc, Holds-alloc, alloc-fresh}
use rpc_bench.Buffer.{Buffer, allocate, view, set_msg_length}
use rpc_bench.Socket.Transfer.{recv_all}
use rpc_bench.Socket.Spared.{recv_all-Spares}
use rpc_bench.Endpoint.{Endpoint, meta_recved, drop_buffer}
use rpc_bench.Endpoint.Receive.{decode_u32, too_small, ensure_owner, prepare, receive_meta}
use rpc_bench.Endpoint.Spared.{Has, drop_buffer-kept, drop_buffer-fresh, IsTidy, Stays, Kept-trans}
use rpc_bench.Endpoint.SparedSending.{StaysWith, at_rest, IsTidy-with_process}

-- An owner was made sure of: only the blocks of the old one changed, and its block is theirs or new.
record Secured (h : Heap) (o : Option Buffer) (r : Option Buffer × Heap) : Type 0 where
  kept : (b : ℕ) (block : List ℕ) → ¬ Has o b → Holds h b block → Holds r.1 b block
  origin : (a : ℕ) → Has r.0 a → Has o a ⊎ (h.fresh ≤ a)
  later : h.fresh ≤ r.1.fresh

module _ (K : Kernel) where
  open K use {World, memalign}

  ensure_owner-Secured :
      (w : World) (h : Heap) (o : Option Buffer) (size : ℕ)
      → IfDone (Secured h o) (ensure_owner K w h o size)
  unfolding ensure_owner allocate set_msg_length
  ensure_owner-Secured w h o size = elim (Bool-cases (too_small o size)) [
    | inr large ↦
        rw (large, ensure_owner)
          (record {
            kept = λ b block ne held. held;
            origin = λ a has. inl has;
            later = omega arith;
          })
    | inl small ↦
        rw (small, ensure_owner)
          (elim (Option-cases (memalign w size)) [
            | inl e ↦ rw (e, allocate) tt
            | inr (block, e) ↦
                rw (e, allocate)
                  (record {
                    kept = λ b other ne held.
                        drop_buffer-kept (alloc h block) o b other ne
                          (Holds-alloc h block b other held);
                    origin = λ a (b, same, at). inr (ground (arith, same, at));
                    later = omega (arith, drop_buffer-fresh (alloc h block) o, alloc-fresh h block);
                  })
          ])
  ]

module _ (K : Kernel) (S : Stream K) (L : InterestList K) (A : Apart K S L) where
  open K use {World}

  -- The endpoint with its new owners and views.
  abbrev prepared :
      Endpoint World → Option Buffer → Option Buffer → Buffer → Buffer → Heap → Endpoint World
  prepared c o₁ o₂ header content h = record c {
    process = record c.process { heap = drop_buffer (drop_buffer h c.header_buffer) c.data_buffer };
    header_buffer_owner = o₁;
    data_buffer_owner = o₂;
    header_buffer = some (view header);
    data_buffer = some (view content);
    state = meta_recved;
  }

  prepared-Stays :
      (c : Endpoint World) (header content : Buffer) (h₁ h₂ : Heap)
      → IsTidy c
      → Secured c.process.heap c.header_buffer_owner (some header, h₁)
      → Secured h₁ c.data_buffer_owner (some content, h₂)
      → Stays K S L c (prepared c (some header) (some content) header content h₂)
  unfolding view
  prepared-Stays c header content h₁ h₂ t s₁ s₂ = (
    record {
      header_view = λ a (b, same, at). (header, refl, ground (arith, same, at));
      data_view = λ a (b, same, at). (content, refl, ground (arith, same, at));
      reply = t.reply;
      queue = t.queue;
    },
    record {
      same_sock = refl;
      same_epfd = refl;
      same_self = refl;
      moved = record {
        spared = Spares-refl K S L c.sock c.process.world;
        kept = λ b block ne held.
            drop_buffer-kept (drop_buffer h₂ c.header_buffer) c.data_buffer b block
              (λ has. ne (inr (t.data_view b has)))
              (drop_buffer-kept h₂ c.header_buffer b block (λ has. ne (inl (t.header_view b has)))
                (s₂.kept b block (λ has. ne (inr has))
                  (s₁.kept b block (λ has. ne (inl has)) held)));
        later = omega (
          arith,
          s₁.later,
          s₂.later,
          drop_buffer-fresh h₂ c.header_buffer,
          drop_buffer-fresh (drop_buffer h₂ c.header_buffer) c.data_buffer,
        );
      };
      owners = λ a own. elim own [
        | inl has ↦ elim (s₁.origin a has) [ inl old ↦ inl (inl old) | inr new ↦ inr new ]
        | inr has ↦ elim (s₂.origin a has) [
          | inl old ↦ inl (inr old)
          | inr new ↦ inr (omega (arith, s₁.later))
        ]
      ];
    },
  )

  prepare-Stays :
      (c : Endpoint World) (header_size data_size : ℕ)
      → IsTidy c
      → IfDone (StaysWith K S L A c) (prepare K c header_size data_size)
  unfolding prepare
  prepare-Stays c header_size data_size t =
      let w = c.process.world in
      IfDone-bind (Secured c.process.heap c.header_buffer_owner) (StaysWith K S L A c)
        (ensure_owner K w c.process.heap c.header_buffer_owner header_size) _
        (ensure_owner-Secured K w c.process.heap c.header_buffer_owner header_size)
        (λ (o₁, h₁) s₁.
          IfDone-bind (Secured h₁ c.data_buffer_owner) (StaysWith K S L A c)
            (ensure_owner K w h₁ c.data_buffer_owner data_size) _
            (ensure_owner-Secured K w h₁ c.data_buffer_owner data_size)
            (λ (o₂, h₂) s₂. views o₁ h₁ s₁ o₂ h₂ s₂))
    where
      views :
          (o₁ : Option Buffer) (h₁ : Heap)
          → Secured c.process.heap c.header_buffer_owner (o₁, h₁)
          → (o₂ : Option Buffer) (h₂ : Heap) → Secured h₁ c.data_buffer_owner (o₂, h₂)
          → IfDone (StaysWith K S L A c) (
              deref o₁ >>= λ header.
              deref o₂ >>= λ content. done (true, prepared c o₁ o₂ header content h₂))
      views none h₁ s₁ o₂ h₂ s₂ = tt
      views (some header) h₁ s₁ none h₂ s₂ = tt
      views (some header) h₁ s₁ (some content) h₂ s₂ = prepared-Stays c header content h₁ h₂ t s₁ s₂

  pub receive_meta-Stays :
      (fuel : ℕ) (c : Endpoint World)
      → IsTidy c
      → IfDone (StaysWith K S L A c) (receive_meta K fuel c)
  unfolding receive_meta
  receive_meta-Stays fuel c t =
      IfDone-bind (λ (r : List ℕ × World). Spares K S L c.sock c.process.world r.1)
        (StaysWith K S L A c) (recv_all K fuel c.process.world c.sock 8 []) _
        (recv_all-Spares K S L A fuel c.process.world c.sock 8 [])
        (λ (bytes, w) spared.
          let c₁ = record c { process = record c.process { world = w } } in
          let tidy = IsTidy-with_process K S L A c (record c.process { world = w }) t in
          let kept = at_rest K S L A c w spared in
          elim (Bool-cases (ltb (length bytes) 8)) [
            | inl short ↦ rw (short, receive_meta) (tidy, kept)
            | inr eight ↦
                rw (eight, receive_meta)
                  (IfDone-mono (StaysWith K S L A c₁) (StaysWith K S L A c) _
                    (prepare-Stays c₁ (decode_u32 bytes) (decode_u32 (drop 4 bytes)) tidy)
                    (λ r (tidy', after). (tidy', Kept-trans K S L c c₁ r.1 kept after)))
          ])
