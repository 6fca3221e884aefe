-- ===== src/Endpoint/SparedSending.antt =====
-- OnSendReady of src/socket/bw_server_endpoint.cc touches no other socket and no block at all.
use rpc_bench.Common.{
  ℕ, zero, suc, ◌≡◌, refl, sym, ap, subst, inl, inr, Bool, true, false, List, [], ◌∷◌, Option, none,
  some, Outcome, done, ◌>>=◌, IfDone, IfDone-bind, IfDone-mono, IfDone-any, Bool-cases, arith,
}
use rpc_bench.Kernel.{Kernel, Reply, got, error}
use rpc_bench.Kernel.Laws.{Stream, InterestList, would_block}
use rpc_bench.Kernel.Apart.{Spares, Apart, Spares-refl}
use rpc_bench.Heap.{Holds}
use rpc_bench.Buffer.{Buffer, get_remain_size, is_clear, mark_handled}
use rpc_bench.Poll.{Interest, interest, is_writable, readable}
use rpc_bench.Poll.Selector.{reregister}
use rpc_bench.Socket.Transfer.{Process, send_at}
use rpc_bench.Socket.Spared.{Reached, reregister-Spares, send_at-Reached}
use rpc_bench.Endpoint.{Endpoint, new_rpc, drop_buffer}
use rpc_bench.Endpoint.Send.{
  set_interest, send_blocked, complete, after_sent, send_front, on_send_ready,
}
use rpc_bench.Endpoint.Spared.{
  IsUnowned, AreUnowned, drop_buffer-unowned, IsTidy, Kept, Stays, Kept-same, Kept-trans,
}

module _ (K : Kernel) (S : Stream K) (L : InterestList K) (A : Apart K S L) where
  open K use {World, send}

  -- A step that was made after the endpoint stayed.
  pub Stays-after :
      (c c₁ : Endpoint World) (m : Outcome (Endpoint World))
      → Kept K S L c c₁
      → IfDone (Stays K S L c₁) m
      → IfDone (Stays K S L c) m
  Stays-after c c₁ m before h =
      IfDone-mono (Stays K S L c₁) (Stays K S L c) m h
        (λ c₂ (tidy, after). (tidy, Kept-trans K S L c c₁ c₂ before after))

  -- Nothing of the endpoint but the world and its own fields changed.
  pub at_rest :
      (c : Endpoint World) (w : World)
      → Spares K S L c.sock c.process.world w
      → Kept K S L c (record c { process = record c.process { world = w } })
  at_rest c w spared = record {
    same_sock = refl;
    same_epfd = refl;
    same_self = refl;
    moved = record { spared = spared; kept = λ b block ne h. h; later = omega arith };
    owners = λ a own. inl own;
  }

  pub IsTidy-with_process :
      (c : Endpoint World) (q : Process World) → IsTidy c → IsTidy (record c { process = q })
  IsTidy-with_process c q t = record {
    header_view = t.header_view;
    data_view = t.data_view;
    reply = t.reply;
    queue = t.queue;
  }

  set_interest-Stays :
      (c : Endpoint World) (i : Interest) → IsTidy c → IfDone (Stays K S L c) (set_interest K c i)
  unfolding set_interest
  set_interest-Stays c i t =
      IfDone-bind (Spares K S L c.sock c.process.world) (Stays K S L c)
        (reregister K c.process.world c.epfd c.sock c.self i) _
        (reregister-Spares K S L A c.process.world c.epfd c.sock c.self i)
        (λ w spared.
          let k = at_rest c w spared in
          (
            record {
              header_view = t.header_view;
              data_view = t.data_view;
              reply = t.reply;
              queue = t.queue;
            },
            record {
              same_sock = refl;
              same_epfd = refl;
              same_self = refl;
              moved = k.moved;
              owners = k.owners;
            },
          ))

  Stays-refl : (c : Endpoint World) → IsTidy c → Stays K S L c c
  Stays-refl c t = (t, Kept-same K S L c _ refl refl refl refl refl refl)

  send_blocked-Stays :
      (c : Endpoint World) (errno : ℕ) → IsTidy c → IfDone (Stays K S L c) (send_blocked K c errno)
  unfolding send_blocked
  send_blocked-Stays c errno t = elim (Bool-cases (would_block errno)) [
    | inr hard ↦ rw (hard, send_blocked) tt
    | inl again ↦
        rw (again, send_blocked)
          (elim (Bool-cases (is_writable c.interest)) [
            | inl armed ↦ rw (armed, send_blocked) (Stays-refl c t)
            | inr quiet ↦ rw (quiet, send_blocked) (set_interest-Stays c _ t)
          ])
  ]

  unowned-some :
      (b b' : Buffer)
      → b.is_owner ≡ false
      → ◌≡◌ {A = Option Buffer} (some b) (some b')
      → b'.is_owner ≡ false
  unowned-some b b' h e = ground arith

  -- The endpoint with another queue and state, after the front buffer is destroyed.
  abbrev at_end : Endpoint World → Buffer → List (Option Buffer) → Endpoint World
  at_end c buffer rest = record c {
    state = new_rpc;
    tx_queue = rest;
    process = record c.process { heap = drop_buffer c.process.heap (some buffer) };
  }

  at_end-Stays :
      (c : Endpoint World) (buffer : Buffer) (rest : List (Option Buffer))
      → IsTidy c
      → buffer.is_owner ≡ false
      → AreUnowned rest
      → Stays K S L c (at_end c buffer rest)
  at_end-Stays c buffer rest t view r =
      let same =
        drop_buffer-unowned c.process.heap (some buffer) (λ b e. unowned-some buffer b view e) in
      (
        record { header_view = t.header_view; data_view = t.data_view; reply = t.reply; queue = r },
        record {
          same_sock = refl;
          same_epfd = refl;
          same_self = refl;
          moved = record {
            spared = Spares-refl K S L c.sock c.process.world;
            kept = λ b block ne h. subst (λ heap. Holds heap b block) (sym same) h;
            later = omega (arith, ap (λ heap. heap.fresh) same);
          };
          owners = λ a own. inl own;
        },
      )

  complete-Stays :
      (c : Endpoint World) (buffer : Buffer) (rest : List (Option Buffer))
      → IsTidy c
      → buffer.is_owner ≡ false
      → AreUnowned rest
      → IfDone (Stays K S L c) (complete K c buffer rest)
  unfolding complete
  complete-Stays c buffer rest t view r =
      let end = at_end-Stays c buffer rest t view r in
      elim (Bool-cases (is_writable c.interest)) [
        | inr quiet ↦ rw (quiet, complete) end
        | inl armed ↦
            rw (armed, complete)
              (IfDone-bind (λ i. Unit {0}) (Stays K S L c) (interest readable) _
                (IfDone-any (interest readable))
                (λ i u.
                  Stays-after c (at_end c buffer rest) _ end.1
                    (set_interest-Stays (at_end c buffer rest) i end.0)))
      ]

  after_sent-Stays :
      (c : Endpoint World) (buffer : Buffer) (rest : List (Option Buffer))
      → IsTidy c
      → buffer.is_owner ≡ false
      → AreUnowned rest
      → IfDone (Stays K S L c) (after_sent K c buffer rest)
  unfolding after_sent
  after_sent-Stays c buffer rest t view r = elim (Bool-cases (is_clear buffer)) [
    | inl all ↦ rw (all, after_sent) (complete-Stays c buffer rest t view r)
    | inr part ↦
        rw (part, after_sent)
          (
            record {
              header_view = t.header_view;
              data_view = t.data_view;
              reply = t.reply;
              queue = (λ b e. unowned-some buffer b view e, r);
            },
            Kept-same K S L c _ refl refl refl refl refl refl,
          )
  ]

  sent-Kept :
      (c : Endpoint World) (q : Process World)
      → Reached K S L A c.sock none c.process q
      → Kept K S L c (record c { process = q })
  sent-Kept c q reached = record {
    same_sock = refl;
    same_epfd = refl;
    same_self = refl;
    moved = record {
      spared = reached.spared;
      kept = λ b block ne h. reached.kept b block (λ e. cc) h;
      later = omega (arith, reached.same_fresh);
    };
    owners = λ a own. inl own;
  }

  abbrev pub StaysWith : Endpoint World → Bool × Endpoint World → Type 0
  StaysWith c r = Stays K S L c r.1

  send_front-Stays :
      (c : Endpoint World) (front : Option Buffer) (rest : List (Option Buffer))
      → IsTidy c
      → IsUnowned front
      → AreUnowned rest
      → IfDone (StaysWith c) (send_front K c front rest)
  unfolding send_front mark_handled
  send_front-Stays c none rest t view r = tt
  send_front-Stays c (some buffer) rest t view r =
      IfDone-bind (λ (x : Reply ℕ × Process World). Reached K S L A c.sock none c.process x.1)
        (StaysWith c)
        (send_at K c.process c.sock buffer.ptr buffer.bytes_handled (get_remain_size buffer)) _
        (send_at-Reached K S L A c.process c.sock buffer.ptr buffer.bytes_handled
          (get_remain_size buffer))
        (λ (answer, q) reached. answered answer q reached)
    where
      answered :
          (answer : Reply ℕ) (q : Process World)
          → Reached K S L A c.sock none c.process q
          → IfDone (StaysWith c) (elim answer [
            | error errno ↦
                send_blocked K (record c { process = q }) errno >>= λ c''. done (false, c'')
            | got n ↦
                after_sent K (record c { process = q }) (mark_handled n buffer) rest >>= λ c''.
                done (true, c'')
          ])
      answered (error errno) q reached =
          let c₁ = record c { process = q } in
          IfDone-bind (Stays K S L c) (StaysWith c) (send_blocked K c₁ errno) _
            (Stays-after c c₁ _ (sent-Kept c q reached)
              (send_blocked-Stays c₁ errno (IsTidy-with_process c q t)))
            (λ c₂ s. s)
      answered (got n) q reached =
          let c₁ = record c { process = q } in
          IfDone-bind (Stays K S L c) (StaysWith c) (after_sent K c₁ (mark_handled n buffer) rest) _
            (Stays-after c c₁ _ (sent-Kept c q reached) (
              after_sent-Stays c₁ (mark_handled n buffer) rest (IsTidy-with_process c q t)
                (view buffer refl) r))
            (λ c₂ s. s)

  -- What OnSendReady does with its queue.
  abbrev go_through : ℕ → Endpoint World → List (Option Buffer) → Outcome (Endpoint World)
  go_through fuel c tx = elim tx [
    | [] ↦ done c
    | front ∷ rest ↦ send_front K c front rest >>= λ r. elim r.0 [
      | true ↦ on_send_ready K fuel r.1
      | false ↦ done r.1
    ]
  ]

  queue-Stays :
      (fuel : ℕ) (c : Endpoint World) (tx : List (Option Buffer))
      → IsTidy c
      → AreUnowned tx
      → ((c' : Endpoint World) → IsTidy c' → IfDone (Stays K S L c') (on_send_ready K fuel c'))
      → IfDone (Stays K S L c) (go_through fuel c tx)
  queue-Stays fuel c [] t u again = Stays-refl c t
  queue-Stays fuel c (front ∷ rest) t u again =
      IfDone-bind (StaysWith c) (Stays K S L c) (send_front K c front rest) _
        (send_front-Stays c front rest t u.0 u.1) (λ (go_on, c') s. next go_on c' s)
    where
      next :
          (go_on : Bool) (c' : Endpoint World)
          → Stays K S L c c'
          → IfDone (Stays K S L c) (elim go_on [ true ↦ on_send_ready K fuel c' | false ↦ done c' ])
      next true c' s = Stays-after c c' _ s.1 (again c' s.0)
      next false c' s = s

  pub on_send_ready-Stays :
      (fuel : ℕ) (c : Endpoint World) → IsTidy c → IfDone (Stays K S L c) (on_send_ready K fuel c)
  unfolding on_send_ready
  on_send_ready-Stays zero c t = tt
  on_send_ready-Stays (suc fuel) c t =
      queue-Stays fuel c c.tx_queue t t.queue (λ c' t'. on_send_ready-Stays fuel c' t')
