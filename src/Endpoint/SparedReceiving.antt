-- ===== src/Endpoint/SparedReceiving.antt =====
-- OnRecvReady of src/socket/bw_server_endpoint.cc touches its own socket and blocks alone.
use rpc_bench.Common.{
  ℕ, ◌≡◌, ◌==◌, refl, sym, ap, subst, inl, inr, Bool, true, false, [], ◌∷◌, ◌++◌, Option, none,
  some, Outcome, done, ◌>>=◌, deref, IfDone, IfDone-bind, IfDone-mono, Bool-cases, arith,
}
use rpc_bench.Kernel.{Kernel, Reply, got, error}
use rpc_bench.Kernel.Laws.{Stream, InterestList, would_block}
use rpc_bench.Kernel.Apart.{Apart, Spares-refl}
use rpc_bench.Heap.{Holds}
use rpc_bench.Buffer.{Buffer, view, get_remain_size, is_clear, mark_handled}
use rpc_bench.Socket.Transfer.{Process, recv_at}
use rpc_bench.Socket.Spared.{Reached, recv_at-Reached}
use rpc_bench.Endpoint.{
  Endpoint, State, new_rpc, meta_recved, header_recved, data_recved, replying, drop_buffer,
}
use rpc_bench.Endpoint.Send.{reply, on_send_ready}
use rpc_bench.Endpoint.Receive.{
  header_answer, read_header, receive_header, data_complete, data_answer, read_data, receive_data,
  and_then, from_data_recved, from_header_recved, from_meta_recved, from_new_rpc, dispatch,
  on_recv_ready,
}
use rpc_bench.Endpoint.Spared.{
  AreUnowned-append, drop_buffer-unowned, Owns, IsTidy, Kept, Stays, Kept-same, Kept-trans,
}
use rpc_bench.Endpoint.SparedSending.{
  StaysWith, Stays-after, IsTidy-with_process, on_send_ready-Stays,
}
use rpc_bench.Endpoint.SparedOwners.{receive_meta-Stays}

module _ (K : Kernel) (S : Stream K) (L : InterestList K) (A : Apart K S L) where
  open K use {World}

  -- Recv into a block of the endpoint.
  received-Kept :
      (c : Endpoint World) (buffer : Buffer) (q : Process World)
      → ((a : ℕ) → buffer.ptr ≡ some a → Owns c a)
      → Reached K S L A c.sock buffer.ptr c.process q
      → Kept K S L c (record c { process = q })
  received-Kept c buffer q mine reached = record {
    same_sock = refl;
    same_epfd = refl;
    same_self = refl;
    moved = record {
      spared = reached.spared;
      kept = λ b block ne h. reached.kept b block (λ at. ne (mine b at)) h;
      later = omega (arith, reached.same_fresh);
    };
    owners = λ a own. inl own;
  }

  StaysWith-after :
      (c c₁ : Endpoint World) (m : Outcome (Bool × Endpoint World))
      → Kept K S L c c₁
      → IfDone (StaysWith K S L A c₁) m
      → IfDone (StaysWith K S L A c) m
  StaysWith-after c c₁ m before h =
      IfDone-mono (StaysWith K S L A c₁) (StaysWith K S L A c) m h
        (λ r (tidy, after). (tidy, Kept-trans K S L c c₁ r.1 before after))

  header_answer-Stays :
      (c : Endpoint World) (buffer : Buffer) (r : Reply ℕ)
      → IsTidy c
      → c.header_buffer ≡ some buffer
      → IfDone (StaysWith K S L A c) (header_answer K c buffer r)
  unfolding header_answer mark_handled
  header_answer-Stays c buffer (error errno) t at = elim (Bool-cases (would_block errno)) [
    | inr hard ↦ rw (hard, header_answer) tt
    | inl again ↦ rw (again, header_answer) (t, Kept-same K S L c _ refl refl refl refl refl refl)
  ]
  header_answer-Stays c buffer (got n) t at = (
    record {
      header_view = λ a (b, same, ptr). t.header_view a (buffer, at, ground (arith, same, ptr));
      data_view = t.data_view;
      reply = t.reply;
      queue = t.queue;
    },
    Kept-same K S L c _ refl refl refl refl refl refl,
  )

  receive_header-Stays :
      (c : Endpoint World) → IsTidy c → IfDone (StaysWith K S L A c) (receive_header K c)
  unfolding receive_header read_header
  receive_header-Stays c t = from c.header_buffer refl
    where
      from :
          (o : Option Buffer)
          → c.header_buffer ≡ o
          → IfDone (StaysWith K S L A c) (deref o >>= λ buffer. read_header K c buffer)
      from none at = tt
      from (some buffer) at =
          IfDone-bind
            (λ (x : Reply ℕ × Process World). Reached K S L A c.sock buffer.ptr c.process x.1)
            (StaysWith K S L A c)
            (recv_at K c.process c.sock buffer.ptr buffer.bytes_handled (get_remain_size buffer)) _
            (recv_at-Reached K S L A c.process c.sock buffer.ptr buffer.bytes_handled
              (get_remain_size buffer))
            (λ (answer, q) reached.
              StaysWith-after c (record c { process = q }) _
                (received-Kept c buffer q (λ a ptr. inl (t.header_view a (buffer, at, ptr)))
                  reached)
                (header_answer-Stays (record c { process = q }) buffer answer
                  (IsTidy-with_process K S L A c q t) at))

  data_complete-Stays : (c : Endpoint World) → IsTidy c → IfDone (Stays K S L c) (data_complete K c)
  unfolding data_complete view
  data_complete-Stays c t = from c.header_buffer
    where
      from :
          (o : Option Buffer)
          → IfDone (Stays K S L c) (
              deref o >>= λ header. done (record c {
                state = data_recved;
                reply_buffer = some (view header);
                process = record c.process { heap = drop_buffer c.process.heap c.reply_buffer };
              }))
      from none = tt
      from (some header) =
          let same = drop_buffer-unowned c.process.heap c.reply_buffer t.reply in
          (
            record {
              header_view = t.header_view;
              data_view = t.data_view;
              reply = λ b e. ground (arith, e);
              queue = t.queue;
            },
            record {
              same_sock = refl;
              same_epfd = refl;
              same_self = refl;
              moved = record {
                spared = Spares-refl K S L c.sock c.process.world;
                kept = λ b block ne h. subst (λ heap. Holds heap b block) (sym same) h;
                later = omega (arith, ap (λ heap. heap.fresh) same);
              };
              owners = λ a own. inl own;
            },
          )

  completed-Stays :
      (c : Endpoint World)
      → IsTidy c
      → IfDone (StaysWith K S L A c) (data_complete K c >>= λ c'. done (true, c'))
  completed-Stays c t =
      IfDone-bind (Stays K S L c) (StaysWith K S L A c) (data_complete K c) (λ c'. done (true, c'))
        (data_complete-Stays c t) (λ c' s. s)

  data_answer-Stays :
      (c : Endpoint World) (buffer : Buffer) (r : Reply ℕ)
      → IsTidy c
      → c.data_buffer ≡ some buffer
      → IfDone (StaysWith K S L A c) (data_answer K c buffer r)
  unfolding data_answer mark_handled
  data_answer-Stays c buffer (error errno) t at = elim (Bool-cases (would_block errno)) [
    | inr hard ↦ rw (hard, data_answer) tt
    | inl again ↦ rw (again, data_answer) (t, Kept-same K S L c _ refl refl refl refl refl refl)
  ]
  data_answer-Stays c buffer (got n) t at =
      let c₁ = record c { data_buffer = some (mark_handled n buffer) } in
      let kept = Kept-same K S L c c₁ refl refl refl refl refl refl in
      let tidy : IsTidy c₁ = record {
        header_view = t.header_view;
        data_view = λ a (b, same, ptr). t.data_view a (buffer, at, ground (arith, same, ptr));
        reply = t.reply;
        queue = t.queue;
      } in
      elim (Bool-cases (is_clear (mark_handled n buffer))) [
        | inl all ↦ rw (all, data_answer) (StaysWith-after c c₁ _ kept (completed-Stays c₁ tidy))
        | inr part ↦ rw (part, data_answer) (tidy, kept)
      ]

  receive_data-Stays :
      (c : Endpoint World) → IsTidy c → IfDone (StaysWith K S L A c) (receive_data K c)
  unfolding receive_data read_data
  receive_data-Stays c t = from c.data_buffer refl
    where
      from :
          (o : Option Buffer)
          → c.data_buffer ≡ o
          → IfDone (StaysWith K S L A c) (deref o >>= λ buffer. read_data K c buffer)
      from none at = tt
      from (some buffer) at = elim (Bool-cases (buffer.size == 0)) [
        | inl nothing ↦ rw (nothing, read_data) (completed-Stays c t)
        | inr something ↦
            rw (something, read_data)
              (IfDone-bind
                (λ (x : Reply ℕ × Process World). Reached K S L A c.sock buffer.ptr c.process x.1)
                (StaysWith K S L A c)
                (recv_at K c.process c.sock buffer.ptr buffer.bytes_handled
                  (get_remain_size buffer))
                _
                (recv_at-Reached K S L A c.process c.sock buffer.ptr buffer.bytes_handled
                  (get_remain_size buffer))
                (λ (answer, q) reached.
                  StaysWith-after c (record c { process = q }) _
                    (received-Kept c buffer q (λ a ptr. inr (t.data_view a (buffer, at, ptr)))
                      reached)
                    (data_answer-Stays (record c { process = q }) buffer answer
                      (IsTidy-with_process K S L A c q t) at)))
      ]

  and_then-Stays :
      (c : Endpoint World) (step : Outcome (Bool × Endpoint World))
      (next : Endpoint World → Outcome (Endpoint World))
      → IfDone (StaysWith K S L A c) step
      → ((c' : Endpoint World) → IsTidy c' → IfDone (Stays K S L c') (next c'))
      → IfDone (Stays K S L c) (and_then K step next)
  unfolding and_then
  and_then-Stays c step next h go =
      IfDone-bind (StaysWith K S L A c) (Stays K S L c) step _ h (λ (b, c') s. cases b c' s)
    where
      cases :
          (b : Bool) (c' : Endpoint World)
          → Stays K S L c c'
          → IfDone (Stays K S L c) (elim b [ true ↦ next c' | false ↦ done c' ])
      cases true c' s = Stays-after K S L A c c' _ s.1 (go c' s.0)
      cases false c' s = s

  from_data_recved-Stays :
      (fuel : ℕ) (c : Endpoint World)
      → IsTidy c
      → IfDone (Stays K S L c) (from_data_recved K fuel c)
  unfolding from_data_recved reply
  from_data_recved-Stays fuel c t =
      let c₁ = record c {
        tx_queue = c.tx_queue ++ (c.reply_buffer ∷ []);
        reply_buffer = none;
        state = replying;
      } in
      let tidy : IsTidy c₁ = record {
        header_view = t.header_view;
        data_view = t.data_view;
        reply = λ b e. cc;
        queue = AreUnowned-append c.tx_queue c.reply_buffer t.queue t.reply;
      } in
      and_then-Stays c _ (λ c'. done c')
        (IfDone-bind (Stays K S L c) (StaysWith K S L A c) (on_send_ready K fuel c₁) _
          (Stays-after K S L A c c₁ _ (Kept-same K S L c c₁ refl refl refl refl refl refl)
            (on_send_ready-Stays K S L A fuel c₁ tidy))
          (λ c' s. s))
        (λ c' t'. (t', Kept-same K S L c' c' refl refl refl refl refl refl))

  from_header_recved-Stays :
      (fuel : ℕ) (c : Endpoint World)
      → IsTidy c
      → IfDone (Stays K S L c) (from_header_recved K fuel c)
  unfolding from_header_recved
  from_header_recved-Stays fuel c t =
      and_then-Stays c _ _ (receive_data-Stays c t) (from_data_recved-Stays fuel)

  from_meta_recved-Stays :
      (fuel : ℕ) (c : Endpoint World)
      → IsTidy c
      → IfDone (Stays K S L c) (from_meta_recved K fuel c)
  unfolding from_meta_recved
  from_meta_recved-Stays fuel c t =
      and_then-Stays c _ _ (receive_header-Stays c t) (from_header_recved-Stays fuel)

  dispatch-Stays :
      (st : State) (fuel : ℕ) (c : Endpoint World)
      → IsTidy c
      → IfDone (Stays K S L c) (dispatch K st fuel c)
  unfolding dispatch from_new_rpc
  dispatch-Stays new_rpc fuel c t =
      and_then-Stays c _ _ (receive_meta-Stays K S L A fuel c t) (from_meta_recved-Stays fuel)
  dispatch-Stays meta_recved fuel c t = from_meta_recved-Stays fuel c t
  dispatch-Stays header_recved fuel c t = from_header_recved-Stays fuel c t
  dispatch-Stays data_recved fuel c t = from_data_recved-Stays fuel c t
  dispatch-Stays replying fuel c t = (t, Kept-same K S L c c refl refl refl refl refl refl)

  pub on_recv_ready-Stays :
      (fuel : ℕ) (c : Endpoint World) → IsTidy c → IfDone (Stays K S L c) (on_recv_ready K fuel c)
  unfolding on_recv_ready
  on_recv_ready-Stays fuel c t = dispatch-Stays c.state fuel c t
