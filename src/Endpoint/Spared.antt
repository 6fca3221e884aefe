-- ===== src/Endpoint/Spared.antt =====
-- What a handler of src/socket/bw_server_endpoint.cc may touch: its own socket, and the blocks of its
-- own buffers.
use rpc_bench.Common.{
  ℕ, ◌≡◌, ◌≤◌, refl, sym, ap, ◌∙◌, subst, ◌⊎◌, inl, inr, ℤ, false, List, [], ◌∷◌, ◌++◌, Option,
  none, some, Bool-cases, Option-cases, arith,
}
use rpc_bench.Kernel.{Kernel}
use rpc_bench.Kernel.Laws.{Stream, InterestList}
use rpc_bench.Kernel.Apart.{Spares, Spares-refl, Spares-trans}
use rpc_bench.Heap.{Heap, Holds, Holds-free, free}
use rpc_bench.Buffer.{Buffer, destroy}
use rpc_bench.Socket.Transfer.{Process}
use rpc_bench.Endpoint.{Endpoint, drop_buffer}

-- `o` is a buffer at the start of block `a`.
abbrev pub Has : Option Buffer → ℕ → Type 0
Has o a = (b : Buffer) × (o ≡ some b) × (b.ptr ≡ some a)

-- A buffer whose destructor frees nothing.
abbrev pub IsUnowned : Option Buffer → Type 0
IsUnowned o = (b : Buffer) → o ≡ some b → b.is_owner ≡ false

abbrev pub AreUnowned : List (Option Buffer) → Type 0
AreUnowned [] = Unit {0}
AreUnowned (o ∷ os) = IsUnowned o × AreUnowned os

pub AreUnowned-append :
    (os : List (Option Buffer)) (o : Option Buffer)
    → AreUnowned os
    → IsUnowned o
    → AreUnowned (os ++ (o ∷ []))
AreUnowned-append [] o h k = (k, tt)
AreUnowned-append (x ∷ os) o h k = (h.0, AreUnowned-append os o h.1 k)

-- The destructor of a buffer leaves the blocks that it is not on.
pub drop_buffer-kept :
    (h : Heap) (o : Option Buffer) (b : ℕ) (block : List ℕ)
    → ¬ Has o b
    → Holds h b block
    → Holds (drop_buffer h o) b block
unfolding drop_buffer destroy
drop_buffer-kept h none b block ne held = held
drop_buffer-kept h (some buffer) b block ne held = elim (Bool-cases buffer.is_owner) [
  | inr shared ↦ rw (shared, destroy) held
  | inl mine ↦ elim (Option-cases buffer.ptr) [
    | inl e ↦ rw (mine, destroy) (rw (e, destroy) held)
    | inr (a, e) ↦
        rw (mine, destroy)
          (rw (e, destroy)
            (Holds-free h b a block (λ same. ne (buffer, refl, e ∙ ap (λ n. some n) (sym same)))
              held))
  ]
]

pub drop_buffer-fresh : (h : Heap) (o : Option Buffer) → (drop_buffer h o).fresh ≡ h.fresh
unfolding drop_buffer destroy free
drop_buffer-fresh h none = refl
drop_buffer-fresh h (some buffer) = elim (Bool-cases buffer.is_owner) [
  | inr shared ↦ rw (shared, destroy) refl
  | inl mine ↦ elim (Option-cases buffer.ptr) [
    | inl e ↦ rw (mine, destroy) (rw (e, destroy) refl)
    | inr (a, e) ↦ rw (mine, destroy) (rw (e, destroy) refl)
  ]
]

pub drop_buffer-unowned : (h : Heap) (o : Option Buffer) → IsUnowned o → drop_buffer h o ≡ h
unfolding drop_buffer destroy
drop_buffer-unowned h none u = refl
drop_buffer-unowned h (some buffer) u = rw (u buffer refl, destroy) refl

module _ {W : Type 0} where
  -- The blocks of an endpoint.
  abbrev pub Owns : Endpoint W → ℕ → Type 0
  Owns c a = Has c.header_buffer_owner a ⊎ Has c.data_buffer_owner a

  -- The views for what comes in are on the blocks of their owners, and what goes out is a view.
  pub record IsTidy (c : Endpoint W) : Type 0 where
    pub header_view : (a : ℕ) → Has c.header_buffer a → Has c.header_buffer_owner a
    pub data_view : (a : ℕ) → Has c.data_buffer a → Has c.data_buffer_owner a
    pub reply : IsUnowned c.reply_buffer
    pub queue : AreUnowned c.tx_queue

module _ (K : Kernel) (S : Stream K) (L : InterestList K) where
  open K use {World}

  -- From `p` to `q` every other socket and every block that is not `own` was left alone.
  pub record Moved (own : ℕ → Type 0) (fd : ℤ) (p q : Process World) : Type 0 where
    pub spared : Spares K S L fd p.world q.world
    pub kept : (b : ℕ) (block : List ℕ) → ¬ own b → Holds p.heap b block → Holds q.heap b block
    pub later : p.heap.fresh ≤ q.heap.fresh

  -- An endpoint that a handler took from `c` to `c'`.
  pub record Kept (c c' : Endpoint World) : Type 0 where
    pub same_sock : c'.sock ≡ c.sock
    pub same_epfd : c'.epfd ≡ c.epfd
    pub same_self : c'.self ≡ c.self
    pub moved : Moved (Owns c) c.sock c.process c'.process
    pub owners : (a : ℕ) → Owns c' a → Owns c a ⊎ (c.process.heap.fresh ≤ a)

  -- It is still tidy, and left the rest alone.
  abbrev pub Stays : Endpoint World → Endpoint World → Type 0
  Stays c c' = IsTidy c' × Kept c c'

  pub Moved-refl : (own : ℕ → Type 0) (fd : ℤ) (p : Process World) → Moved own fd p p
  Moved-refl own fd p = record {
    spared = Spares-refl K S L fd p.world;
    kept = λ b block ne h. h;
    later = omega arith;
  }

  -- An endpoint of which other fields changed.
  pub Kept-same :
      (c c' : Endpoint World)
      → c'.sock ≡ c.sock
      → c'.epfd ≡ c.epfd
      → c'.self ≡ c.self
      → c'.process ≡ c.process
      → c'.header_buffer_owner ≡ c.header_buffer_owner
      → c'.data_buffer_owner ≡ c.data_buffer_owner
      → Kept c c'
  Kept-same c c' on epfd self process header content = record {
    same_sock = on;
    same_epfd = epfd;
    same_self = self;
    moved =
        subst (Moved (Owns c) c.sock c.process) (sym process)
          (Moved-refl (Owns c) c.sock c.process);
    owners = λ a own. inl (elim own [
      | inl (b, e, at) ↦ inl (b, sym header ∙ e, at)
      | inr (b, e, at) ↦ inr (b, sym content ∙ e, at)
    ]);
  }

  pub Kept-trans : (c c₁ c₂ : Endpoint World) → Kept c c₁ → Kept c₁ c₂ → Kept c c₂
  Kept-trans c c₁ c₂ k l = record {
    same_sock = l.same_sock ∙ k.same_sock;
    same_epfd = l.same_epfd ∙ k.same_epfd;
    same_self = l.same_self ∙ k.same_self;
    moved = record {
      spared =
          Spares-trans K S L c.sock c.process.world c₁.process.world c₂.process.world k.moved.spared
            (subst (λ fd. Spares K S L fd c₁.process.world c₂.process.world) k.same_sock
              l.moved.spared);
      kept = λ b block ne h.
          l.moved.kept b block
            (λ own. elim (k.owners b own) [ inl mine ↦ ne mine | inr new ↦ omega (arith, h.1) ])
            (k.moved.kept b block ne h);
      later = omega (arith, k.moved.later, l.moved.later);
    };
    owners = λ a own. elim (l.owners a own) [
      | inl mine ↦ k.owners a mine
      | inr new ↦ inr (omega (arith, k.moved.later))
    ];
  }
