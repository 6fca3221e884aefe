-- ===== src/Server/Welcoming.antt =====
-- OnAccepted of src/socket/bw_server_endpoint.cc on a socket that accept(2) gave.
use rpc_bench.Common.{
  ℕ, ◌≡◌, refl, sym, ◌∙◌, subst, inl, inr, ℤ, negsuc, List, [], true, some, bit_or, length, done,
  ◌>>=◌, ltb, IfDone, IfDone-bind, IfDone-mono, Bool-cases, ◌==ℤ◌, arith,
}
use rpc_bench.Kernel.{Kernel, ctl_add, fcntl_getfl, fcntl_setfl}
use rpc_bench.Kernel.Laws.{Stream, InterestList, Reply-cases}
use rpc_bench.Kernel.Apart.{Same, Spares, Apart, Accepts, Same-trans}
use rpc_bench.Poll.Selector.{register, event_of}
use rpc_bench.Socket.{flags_of, set_non_block}
use rpc_bench.Socket.Transfer.{Process}
use rpc_bench.Endpoint.{Endpoint, new_endpoint}
use rpc_bench.Endpoint.Handlers.{at_world, get_peer_addr, on_accepted}
use rpc_bench.Endpoint.History.{opened}
use rpc_bench.Endpoint.Connection.{Conn, at_rest}
use rpc_bench.Endpoint.Spared.{IsTidy, Owns}

module _ (K : Kernel) (S : Stream K) (L : InterestList K) (A : Apart K S L)
    (B : Accepts K S L) where
  open K use {World, getpeername, call, epoll_ctl}
  open S use {incoming, sent, ctl_incoming, ctl_sent}
  open L use {registered, add_registered}
  open A use {ctl_apart}
  open B use {getpeername_same, getfl_same, setfl_same}

  -- No socket changed.
  abbrev Calm : World → World → Type 0
  Calm w w' = (s : ℤ) → Same K S L s w w'

  get_peer_addr-Calm :
      (c : Endpoint World)
      → IfDone
          (λ c'.
            (addr : List ℕ) × (w : World) × (c' ≡ record (at_world K c w) { sock_addr = addr })
            × Calm c.process.world w)
          (get_peer_addr K c)
  unfolding get_peer_addr
  get_peer_addr-Calm c = elim (Reply-cases (getpeername c.process.world c.sock).0) [
    | inr (errno, e) ↦ rw (e, get_peer_addr) tt
    | inl (addr, e) ↦ elim (Bool-cases (ltb 0 (length addr))) [
      | inr empty ↦ rw (e, get_peer_addr) (rw empty tt)
      | inl full ↦
          rw (e, get_peer_addr)
            (rw full (
              addr,
              (getpeername c.process.world c.sock).1,
              refl,
              getpeername_same c.process.world c.sock,
            ))
    ]
  ]

  set_non_block-Calm : (w : World) (fd : ℤ) → IfDone (Calm w) (set_non_block K w fd true)
  unfolding set_non_block
  set_non_block-Calm w fd =
      let w₁ = (call w (fcntl_getfl fd)).1 in
      let flags = bit_or (flags_of K (call w (fcntl_getfl fd)).0) 0x800 in
      let calm =
        λ (s : ℤ). Same-trans K S L s w w₁ _ (getfl_same w fd s) (setfl_same w₁ fd flags s) in
      elim (Reply-cases (call w₁ (fcntl_setfl fd flags)).0) [
        | inr (errno, e) ↦ rw (e, set_non_block) tt
        | inl (r, e) ↦ elim (Bool-cases (r ==ℤ negsuc 0)) [
          | inl bad ↦ rw (e, set_non_block) (rw bad tt)
          | inr good ↦ rw (e, set_non_block) (rw good calm)
        ]
      ]

  -- The socket of `c` is registered for what the endpoint waits for.
  pub record Registered (w : World) (c : Endpoint World) (w' : World) : Type 0 where
    pub spared : Spares K S L c.sock w w'
    pub same_incoming : incoming w' c.sock ≡ incoming w c.sock
    pub same_sent : sent w' c.sock ≡ sent w c.sock
    pub known : registered w' c.epfd c.sock ≡ some (event_of K c.self c.interest)

  register-Registered :
      (w : World) (c : Endpoint World)
      → IfDone (Registered w c) (register K w c.epfd c.sock c.self c.interest)
  unfolding register
  register-Registered w c =
      let ev = event_of K c.self c.interest in
      elim (Reply-cases (epoll_ctl w c.epfd ctl_add c.sock (some ev)).0) [
        | inr (errno, e) ↦ rw (e, register) tt
        | inl (ok, e) ↦
            rw (e, register)
              (record {
                spared = ctl_apart w c.epfd ctl_add c.sock (some ev);
                same_incoming = ctl_incoming w c.epfd ctl_add c.sock (some ev) c.sock;
                same_sent = ctl_sent w c.epfd ctl_add c.sock (some ev) c.sock;
                known = add_registered w c.epfd c.sock ev e;
              })
      ]

  -- The endpoint after OnAccepted.
  pub record Welcomed (c c' : Endpoint World) : Type 0 where
    pub world : World
    pub addr : List ℕ
    pub same : c' ≡ record (at_world K c world) { sock_addr = addr }
    pub linked : Registered c.process.world c world

  pub on_accepted-Welcomed : (c : Endpoint World) → IfDone (Welcomed c) (on_accepted K c)
  unfolding on_accepted
  on_accepted-Welcomed c =
      IfDone-bind _ (Welcomed c) (get_peer_addr K c) _ (get_peer_addr-Calm c)
        (λ c' (addr, w, e, calm).
          subst
            (λ x. IfDone (Welcomed c) (
              set_non_block K x.process.world x.sock true >>= λ w₁.
              register K w₁ x.epfd x.sock x.self x.interest >>= λ w₂. done (at_world K x w₂)))
            (sym e)
            (IfDone-bind (Calm w) (Welcomed c) (set_non_block K w c.sock true) _
              (set_non_block-Calm w c.sock)
              (λ w₁ calm₁.
                IfDone-bind (Registered w₁ c) (Welcomed c)
                  (register K w₁ c.epfd c.sock c.self c.interest) _ (register-Registered w₁ c)
                  (λ w₂ r.
                    let before =
                      λ (s : ℤ). Same-trans K S L s c.process.world w w₁ (calm s) (calm₁ s) in
                    record {
                      world = w₂;
                      addr = addr;
                      same = refl;
                      linked = record {
                        spared = λ s ne.
                            Same-trans K S L s c.process.world w₁ w₂ (before s) (r.spared s ne);
                        same_incoming = r.same_incoming ∙ (before c.sock).incoming_kept;
                        same_sent = r.same_sent ∙ (before c.sock).sent_kept;
                        known = r.known;
                      };
                    }))))

  -- A new endpoint is a sound connection with no blocks, and the other sockets are as they were.
  pub record IsNew (p : Process World) (epfd : ℤ) (n : ℕ) (fd : ℤ) (c : Endpoint World)
      : Type 0 where
    pub on : c.sock ≡ fd
    pub conn : Conn K S L fd (incoming p.world fd) c
    pub tidy : IsTidy c
    pub bare : (a : ℕ) → ¬ Owns c a
    pub spared : Spares K S L fd p.world c.process.world
    pub same_heap : c.process.heap ≡ p.heap

  pub new_endpoint-IsNew :
      (p : Process World) (epfd : ℤ) (n : ℕ) (fd : ℤ)
      → sent p.world fd ≡ []
      → IfDone (IsNew p epfd n fd) (on_accepted K (new_endpoint p epfd n fd))
  unfolding new_endpoint
  new_endpoint-IsNew p epfd n fd silent =
      IfDone-mono (Welcomed (new_endpoint p epfd n fd)) (IsNew p epfd n fd) _
        (on_accepted-Welcomed (new_endpoint p epfd n fd))
        (λ c w. subst (IsNew p epfd n fd) (sym w.same) (record {
          on = refl;
          conn =
              at_rest opened tt
                (record {
                  linked = record { on = refl; known = w.linked.known; valid = omega arith };
                  header_owner = inl (refl, refl);
                  data_owner = inl (refl, refl);
                  distinct = λ a (k, e). absurd (cc);
                  header_view = inl refl;
                  data_view = inl refl;
                  header_fits = omega arith;
                  data_fits = omega arith;
                  reply_free = refl;
                  queue = refl;
                  state = refl;
                })
                (sym w.linked.same_incoming) (w.linked.same_sent ∙ silent);
          tidy = record {
            header_view = λ a (b, e, at). absurd (cc);
            data_view = λ a (b, e, at). absurd (cc);
            reply = λ b e. cc;
            queue = tt;
          };
          bare = λ a own. elim own [ inl (b, e, at) ↦ cc | inr (b, e, at) ↦ cc ];
          spared = w.linked.spared;
          same_heap = refl;
        }))
