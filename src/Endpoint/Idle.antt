-- ===== src/Endpoint/Idle.antt =====
-- Between two RPCs, and ReceiveMeta.
use rpc_bench.Common.{
  ℕ, ◌≤◌, ◌<◌, ◌^◌, ◌≡◌, refl, sym, ap, ◌∙◌, subst, ◌⊎◌, inl, inr, ℤ, List, [], ◌∷◌, Option, none,
  some, max, ltb, length, Bytes, done, Post, arith, Bool-cases, Option-cases, ◌>>=◌,
}
use rpc_bench.Kernel.{Kernel}
use rpc_bench.Kernel.Laws.{Stream, InterestList, Memory}
use rpc_bench.Heap.{
  Heap, Holds, alloc, free, alloc-fresh, Holds-alloc_self, Holds-alloc, Holds-free,
}
use rpc_bench.Buffer.{Buffer, allocate, destroy, set_msg_length}
use rpc_bench.Socket.Growth.{Unallocated, no_memory}
use rpc_bench.Endpoint.{Endpoint, new_rpc, drop_buffer}
use rpc_bench.Endpoint.Receive.{decode_u32, too_small, ensure_owner}
use rpc_bench.Endpoint.Frames.{owned, window, Linked}

pub decode_u32-lt : (bs : List ℕ) → Bytes bs → decode_u32 bs < 2 ^ 32
unfolding decode_u32
decode_u32-lt [] h = omega arith
decode_u32-lt (a ∷ []) h = omega arith
decode_u32-lt (a ∷ b ∷ []) h = omega arith
decode_u32-lt (a ∷ b ∷ c ∷ []) h = omega arith
decode_u32-lt (a ∷ b ∷ c ∷ d ∷ rest) h = omega arith

-- An owner of `n` bytes, or none and `n` is 0.
abbrev pub Owner : Heap → Option Buffer → ℕ → Type 0
Owner h o n =
    ((o ≡ none) × (n ≡ 0))
    ⊎ ((a : ℕ) × (block : List ℕ) × (o ≡ some (owned a (length block)))
        × Holds h a block
        × (n ≡ length block))

-- Block `a` belongs to `o`.
abbrev pub IsBlockOf : Option Buffer → ℕ → Type 0
IsBlockOf o a = (n : ℕ) × (o ≡ some (owned a n))

-- The destructor of an owner leaves the other blocks.
drop_buffer-Holds :
    (now h : Heap) (o : Option Buffer) (n : ℕ)
    → Owner h o n
    → (b : ℕ) (other : List ℕ) → ¬ IsBlockOf o b
    → Holds now b other
    → Holds (drop_buffer now o) b other
unfolding drop_buffer destroy
drop_buffer-Holds now h o n (inl (e, z)) b other ne hb =
    subst (λ o'. Holds (drop_buffer now o') b other) (sym e) hb
drop_buffer-Holds now h o n (inr (a, block, e, held, l)) b other ne hb =
    subst (λ o'. Holds (drop_buffer now o') b other) (sym e)
      (Holds-free now b a other
        (λ same. ne (length block, e ∙ ap (λ x. some (owned x (length block))) (sym same))) hb)

drop_buffer-fresh :
    (now h : Heap) (o : Option Buffer) (n : ℕ) → Owner h o n → (drop_buffer now o).fresh ≡ now.fresh
unfolding drop_buffer destroy free
drop_buffer-fresh now h o n (inl (e, z)) = ap (λ o'. (drop_buffer now o').fresh) e
drop_buffer-fresh now h o n (inr (a, block, e, held, l)) = ap (λ o'. (drop_buffer now o').fresh) e

pub owned_below :
    (h : Heap) (o : Option Buffer) (n : ℕ) → Owner h o n → (a : ℕ) → IsBlockOf o a → a < h.fresh
owned_below h o n (inl (e, z)) x (m, f) = absurd (cc)
owned_below h o n (inr (a, block, e, held, l)) x (m, f) = ground (arith, held.1)

fresh-not_owned : (h : Heap) (o : Option Buffer) (n : ℕ) → Owner h o n → ¬ IsBlockOf o h.fresh
fresh-not_owned h o n (inl (e, z)) (m, f) = cc
fresh-not_owned h o n (inr (a, block, e, held, l)) (m, f) = ground (arith, held.1)

-- An owner of at least `size` bytes was made sure of: the old one, or a new block.
pub record Ensured (h : Heap) (o : Option Buffer) (n size : ℕ) (r : Option Buffer × Heap)
    : Type 0 where
  pub block_number : ℕ
  pub block : List ℕ
  pub owner : r.0 ≡ some (owned block_number (length block))
  pub holds : Holds r.1 block_number block
  pub large : length block ≡ max n size
  pub others : (b : ℕ) (other : List ℕ) → ¬ IsBlockOf o b → Holds h b other → Holds r.1 b other
  pub origin : IsBlockOf o block_number ⊎ (h.fresh ≤ block_number)
  pub later : h.fresh ≤ r.1.fresh

module _ (K : Kernel) (M : Memory K) where
  open K use {World, memalign}
  open M use {memalign_length}

  allocate-Ensured :
      (w : World) (h : Heap) (o : Option Buffer) (n size : ℕ)
      → Owner h o n
      → n ≤ size
      → Post (Unallocated K) (Ensured h o n size) (
          allocate K w h size >>= λ new.
          done (some (set_msg_length size new.0), drop_buffer new.1 o))
  unfolding allocate set_msg_length
  allocate-Ensured w h o n size own less = elim (Option-cases (memalign w size)) [
    | inl e ↦ rw (e, allocate) (no_memory w size e)
    | inr (block, e) ↦
        rw (e, allocate)
          (record {
            block_number = h.fresh;
            block = block;
            owner = ap (λ k. some (owned h.fresh k)) (sym (memalign_length w size block e));
            holds =
                drop_buffer-Holds (alloc h block) h o n own h.fresh block
                  (fresh-not_owned h o n own) (Holds-alloc_self h block);
            large = omega (arith, memalign_length w size block e);
            others = λ b other ne hb.
                drop_buffer-Holds (alloc h block) h o n own b other ne
                  (Holds-alloc h block b other hb);
            origin = inr (omega arith);
            later = omega (arith, drop_buffer-fresh (alloc h block) h o n own, alloc-fresh h block);
          })
  ]

  pub ensure_owner-Ensured :
      (w : World) (h : Heap) (o : Option Buffer) (n size : ℕ)
      → Owner h o n
      → Post (Unallocated K) (Ensured h o n size) (ensure_owner K w h o size)
  unfolding ensure_owner too_small
  ensure_owner-Ensured w h o n size (inl (e, z)) =
      subst (λ o'. Post (Unallocated K) (Ensured h o' n size) (ensure_owner K w h o' size)) (sym e)
        (allocate-Ensured w h none n size (inl (refl, z)) (omega arith))
  ensure_owner-Ensured w h o n size (inr (a, block, e, held, l)) =
      subst (λ o'. Post (Unallocated K) (Ensured h o' n size) (ensure_owner K w h o' size)) (sym e)
        (elim (Bool-cases (ltb (length block) size)) [
          | inl small ↦
              rw (small, ensure_owner)
                (allocate-Ensured w h (some (owned a (length block))) n size
                  (inr (a, block, refl, held, l)) (ground arith))
          | inr large ↦
              rw (large, ensure_owner)
                (record {
                  block_number = a;
                  block = block;
                  owner = refl;
                  holds = held;
                  large = ground arith;
                  others = λ b other ne hb. hb;
                  origin = inl (length block, refl);
                  later = omega arith;
                })
        ])

-- A buffer that its destructor does not free.
abbrev pub Borrowed : Option Buffer → Type 0
Borrowed o = (o ≡ none) ⊎ ((a n k : ℕ) × (o ≡ some (window a n k)))

pub drop_buffer-Borrowed : (h : Heap) (o : Option Buffer) → Borrowed o → drop_buffer h o ≡ h
unfolding drop_buffer destroy
drop_buffer-Borrowed h o (inl e) = ap (drop_buffer h) e
drop_buffer-Borrowed h o (inr (a, n, k, e)) = ap (drop_buffer h) e

module _ (K : Kernel) (S : Stream K) (L : InterestList K) where
  open K use {World}
  open S use {incoming, sent}

  -- NEW_RPC with nothing to send: the owners have `n` and `m` bytes, in blocks of their own.
  pub record Idle (fd : ℤ) (n m : ℕ) (c : Endpoint World) : Type 0 where
    pub linked : Linked K S L fd c
    pub header_owner : Owner c.process.heap c.header_buffer_owner n
    pub data_owner : Owner c.process.heap c.data_buffer_owner m
    pub distinct : (a : ℕ) → IsBlockOf c.header_buffer_owner a → ¬ IsBlockOf c.data_buffer_owner a
    pub header_view : Borrowed c.header_buffer
    pub data_view : Borrowed c.data_buffer
    pub header_fits : n < 2 ^ 32
    pub data_fits : m < 2 ^ 32
    pub reply_free : c.reply_buffer ≡ none
    pub queue : c.tx_queue ≡ []
    pub state : c.state ≡ new_rpc
