-- ===== src/Server/Replacing.antt =====
-- A new object in the map of src/socket/socket_bw_app.cc, and the end of the one that it replaces.
use rpc_bench.Common.{
  ℕ, suc, ◌≡◌, ◌≢◌, refl, sym, ap, ◌∙◌, subst, ◌⊎◌, inl, inr, ℤ, List, true, false, none, some,
  ◌==◌, ◌==ℤ◌, ==ℤ_iff, Bool-cases, arith,
}
use rpc_bench.Kernel.{Kernel}
use rpc_bench.Kernel.Laws.{Stream, InterestList, Memory}
use rpc_bench.Kernel.Apart.{Spares}
use rpc_bench.Heap.{Holds}
use rpc_bench.Socket.{invalid_socket}
use rpc_bench.Endpoint.{Endpoint}
use rpc_bench.Endpoint.Connection.{Conn}
use rpc_bench.Endpoint.Lifetime.{IsUntouched, with_process, kept-Conn}
use rpc_bench.Endpoint.Spared.{Owns, IsTidy}
use rpc_bench.Server.{Server, find, erase, assign, put}
use rpc_bench.Server.Events.{find-erase_other}
use rpc_bench.Server.Neighbours.{Sound, put-cases}

module _ (K : Kernel) (S : Stream K) (L : InterestList K) where
  open K use {World}

  -- An endpoint without blocks, on a socket that no other endpoint has.
  pub record IsGuest (M : Memory K) (inputs : ℕ → List ℕ) (s : Server World) (c : Endpoint World)
      : Type 0 where
    pub live : c.sock ≢ invalid_socket
    pub conn : Conn K S L c.sock (inputs s.fresh) c
    pub tidy : IsTidy c
    pub bare : (a : ℕ) → ¬ Owns c a
    pub spared : Spares K S L c.sock s.process.world c.process.world
    pub same_heap : c.process.heap ≡ s.process.heap
    pub unused : (n : ℕ) (d : Endpoint World) → s.objects n ≡ some d → d.sock ≢ c.sock

  -- The server with a new object in its map.
  abbrev pub added : Server World → Endpoint World → Server World
  added s c = record (put K s s.fresh c) {
    endpoints = assign c.sock s.fresh s.endpoints;
    fresh = suc s.fresh;
  }

  -- A new object is there and open, and every open object is as it was, with its socket and its
  -- blocks.
  pub record Welcomed (s s' : Server World) : Type 0 where
    pub number : s'.fresh ≡ suc s.fresh
    pub newcomer : Endpoint World
    pub there : s'.objects s.fresh ≡ some newcomer
    pub live : newcomer.sock ≢ invalid_socket
    pub kept :
        (n : ℕ) (d : Endpoint World)
        → s.objects n ≡ some d
        → d.sock ≢ invalid_socket
        → s'.objects n ≡ some d
    pub spared : Spares K S L newcomer.sock s.process.world s'.process.world
    pub blocks :
        (n : ℕ) (d : Endpoint World) (a : ℕ) (block : List ℕ)
        → s.objects n ≡ some d
        → d.sock ≢ invalid_socket
        → Owns d a
        → Holds s.process.heap a block
        → Holds s'.process.heap a block

  module _ (M : Memory K) (inputs : ℕ → List ℕ) (s : Server World) (c : Endpoint World)
      (sound : Sound K S L M inputs s) (g : IsGuest M inputs s c) where
    guest-IsUntouched :
        (n : ℕ) (d : Endpoint World)
        → s.objects n ≡ some d
        → IsUntouched K S L M (with_process K S L M d s.process) c.process
    guest-IsUntouched n d e =
        let same = g.spared d.sock (g.unused n d e) in
        record {
          same_incoming = same.incoming_kept;
          same_sent = same.sent_kept;
          same_registered = same.registered_kept d.epfd;
          header_kept = λ a block own held. subst (λ h. Holds h a block) (sym g.same_heap) held;
          data_kept = λ a block own held. subst (λ h. Holds h a block) (sym g.same_heap) held;
        }

    added-Conn :
        (n : ℕ) (d : Endpoint World)
        → (added s c).objects n ≡ some d
        → d.sock ≢ invalid_socket
        → Conn K S L d.sock (inputs n) (with_process K S L M d c.process)
    added-Conn n d e live = elim (put-cases K S L s s.fresh c n d e) [
      | inr (ne, old) ↦
          kept-Conn K S L M d.sock (inputs n) (with_process K S L M d s.process) c.process
            (guest-IsUntouched n d old) (sound.conn n d old live)
      | inl (same, new) ↦
          subst (λ x. Conn K S L x.sock (inputs n) (with_process K S L M x c.process)) (sym new)
            (subst (λ k. Conn K S L c.sock (inputs k) c) (sym same) g.conn)
    ]

    pub assigned :
        (fd : ℤ) (n : ℕ)
        → find fd (assign c.sock s.fresh s.endpoints) ≡ some n
        → ((fd ≡ c.sock) × (n ≡ s.fresh)) ⊎ ((fd ≢ c.sock) × (find fd s.endpoints ≡ some n))
    unfolding assign find
    assigned fd n found = elim (Bool-cases (c.sock ==ℤ fd)) [
      | inl same ↦ inl (sym ((==ℤ_iff c.sock fd).0 same), ground (arith, found, same))
      | inr apart ↦
          let ne : fd ≢ c.sock = λ e. cc ((==ℤ_iff c.sock fd).1 (sym e), apart) in
          let tail : find fd (erase c.sock s.endpoints) ≡ some n = ground (arith, found, apart) in
          inr (ne, sym (find-erase_other c.sock fd s.endpoints ne) ∙ tail)
    ]

    assign-no_closed : find invalid_socket (assign c.sock s.fresh s.endpoints) ≡ none
    unfolding assign find
    assign-no_closed = elim (Bool-cases (c.sock ==ℤ invalid_socket)) [
      | inl bad ↦ absurd (g.live ((==ℤ_iff c.sock invalid_socket).0 bad))
      | inr good ↦
          rw (good, find)
            (find-erase_other c.sock invalid_socket s.endpoints (λ e. g.live (sym e))
              ∙ sound.no_closed)
    ]

    -- A number in the old map is not that of the new object.
    pub not_fresh : (fd : ℤ) (n : ℕ) → find fd s.endpoints ≡ some n → n ≢ s.fresh
    not_fresh fd n found e =
        let (d, there, on) = sound.mapped fd n found in omega (arith, e, sound.numbered n d there)

    pub added-Sound : Sound K S L M inputs (added s c)
    added-Sound = record {
      conn = added-Conn;
      tidy = λ n d e. elim (put-cases K S L s s.fresh c n d e) [
        | inr (ne, old) ↦ sound.tidy n d old
        | inl (same, new) ↦ subst IsTidy (sym new) g.tidy
      ];
      below = λ n d a e own. elim (put-cases K S L s s.fresh c n d e) [
        | inr (ne, old) ↦ omega (arith, sound.below n d a old own, ap (λ h. h.fresh) g.same_heap)
        | inl (same, new) ↦ absurd (g.bare a (subst (λ x. Owns x a) new own))
      ];
      own_blocks = λ n m x y a ne e f own own'. elim (put-cases K S L s s.fresh c n x e) [
        | inl (same, new) ↦ g.bare a (subst (λ z. Owns z a) new own)
        | inr (n_other, old) ↦ elim (put-cases K S L s s.fresh c m y f) [
          | inl (same, new) ↦ g.bare a (subst (λ z. Owns z a) new own')
          | inr (m_other, old') ↦ sound.own_blocks n m x y a ne old old' own own'
        ]
      ];
      own_sockets = λ n m x y ne e f live clash. elim (put-cases K S L s s.fresh c n x e) [
        | inl (same, new) ↦ elim (put-cases K S L s s.fresh c m y f) [
          | inl (same', new') ↦ ne (same ∙ sym same')
          | inr (m_other, old') ↦ g.unused m y old' (sym clash ∙ ap (λ z. z.sock) new)
        ]
        | inr (n_other, old) ↦ elim (put-cases K S L s s.fresh c m y f) [
          | inl (same', new') ↦ g.unused n x old (clash ∙ ap (λ z. z.sock) new')
          | inr (m_other, old') ↦ sound.own_sockets n m x y ne old old' live clash
        ]
      ];
      mapped = λ fd n found. elim (assigned fd n found) [
        | inl (on, new) ↦
            let here : (n == s.fresh) ≡ true = ground (arith, new) in
            (c, rw here refl, inl (sym on))
        | inr (ne, old) ↦
            let (d, there, on) = sound.mapped fd n old in
            let other : (n == s.fresh) ≡ false = ground (arith, not_fresh fd n old) in
            (d, rw other there, on)
      ];
      mapped_once = λ fd fd' n found found'. elim (assigned fd n found) [
        | inl (on, new) ↦ elim (assigned fd' n found') [
          | inl (on', new') ↦ on ∙ sym on'
          | inr (ne', old') ↦ absurd (not_fresh fd' n old' new)
        ]
        | inr (ne, old) ↦ elim (assigned fd' n found') [
          | inl (on', new') ↦ absurd (not_fresh fd n old new')
          | inr (ne', old') ↦ sound.mapped_once fd fd' n old old'
        ]
      ];
      no_closed = assign-no_closed;
      numbered = λ n d e. elim (put-cases K S L s s.fresh c n d e) [
        | inr (ne, old) ↦ omega (arith, sound.numbered n d old)
        | inl (same, new) ↦ omega (arith, same)
      ];
    }

    pub added-Welcomed : Welcomed s (added s c)
    added-Welcomed = record {
      number = refl;
      newcomer = c;
      there = let here : (s.fresh == s.fresh) ≡ true = ground arith in rw here refl;
      live = g.live;
      kept = λ n d e live.
          let before = sound.numbered n d e in
          let other : (n == s.fresh) ≡ false = ground (arith, before) in rw other e;
      spared = g.spared;
      blocks = λ n d a block e live own held. subst (λ h. Holds h a block) (sym g.same_heap) held;
    }
