-- ===== src/Endpoint/Rounds.antt =====
-- One round of the loop of OnSendReady of src/socket/bw_server_endpoint.cc.
use rpc_bench.Common.{
  ℕ, ◌+◌, ◌-◌, ◌≤◌, ◌<◌, ◌^◌, ◌≡◌, refl, sym, ap, subst, ◌⊎◌, inl, inr, ℤ, List, [], ◌∷◌, none,
  some, Bool, true, false, take, drop, length, length-drop, take_add, take_all, done, Post,
  Post-mono, Post-bind, arith, ◌==◌, Bool-cases, ◌>>=◌,
}
use native.Mathlib.Nat.{add-zero}
use rpc_bench.Kernel.{Kernel, got, error}
use rpc_bench.Kernel.Laws.{Stream, InterestList, Reply-cases, count_of}
use rpc_bench.Heap.{Holds, load-Holds}
use rpc_bench.Buffer.{destroy, get_remain_size, is_clear, mark_handled}
use rpc_bench.Poll.{interest, is_writable}
use rpc_bench.Socket.Growth.{Aborts}
use rpc_bench.Socket.Transfer.{Process, send_at}
use rpc_bench.Endpoint.{Endpoint, new_rpc, replying, drop_buffer}
use rpc_bench.Endpoint.Send.{send_blocked, complete, after_sent, send_front}
use rpc_bench.Endpoint.Frames.{
  get_remain_size-window, mark_handled-window, Exchange, window, During, AtReply, Finished,
}
use rpc_bench.Endpoint.Interests.{
  at_world, set_interest-done, with_interest-During, at_world-During, send_blocked-During,
}

module _ (K : Kernel) (S : Stream K) (L : InterestList K) where
  open K use {World, send, epoll_ctl}
  open S use {
    incoming, sent, send_bound, send_sent, send_incoming, send_progress, ctl_incoming, ctl_sent,
  }
  open L use {registered, mod_ok, mod_registered, send_registered}

  -- The last byte of the reply is out.
  complete-Finished :
      (g : Exchange) (hb db : List ℕ) (c : Endpoint World) (k : ℕ)
      → During K S L g replying hb db
          (length hb)
          (length db)
          (some (window g.header_block (length hb) k) ∷ [])
          none
          hb
          c
      → Post
          (Aborts K)
          (Finished K S L g hb db)
          (complete K c (window g.header_block (length hb) (length hb)) [])
  unfolding complete drop_buffer destroy interest
  complete-Finished g hb db c k d = elim (Bool-cases (is_writable c.interest)) [
    | inl armed ↦
        rw (armed, complete)
          (rw (set_interest-done K S L g.fd idle (record { inner = 1 }) at_end.linked) (
            with_interest-During K S L g new_rpc hb db (length hb) (length db) [] none hb idle
              (record { inner = 1 }) at_end (omega arith)))
    | inr quiet ↦ rw (quiet, complete) at_end
  ]
    where
      idle : Endpoint World
      idle = record c { state = new_rpc; tx_queue = [] }

      at_end : Finished K S L g hb db idle
      at_end = record {
        linked = record { on = d.linked.on; known = d.linked.known; valid = d.linked.valid };
        held = d.held;
        state = refl;
        queue = refl;
        reply_free = d.reply_free;
        meta_length = d.meta_length;
        header_length = d.header_length;
        data_length = d.data_length;
        stream = d.stream;
        replied = d.replied;
      }

  -- `k` bytes of the reply are out: all of it, or the view has moved.
  after_sent-During :
      (g : Exchange) (hb db : List ℕ) (c : Endpoint World) (old k : ℕ)
      → During K S L g replying hb db
          (length hb)
          (length db)
          (some (window g.header_block (length hb) old) ∷ [])
          none
          (take k hb)
          c
      → k ≤ length hb
      → Post
          (Aborts K)
          (λ c'. Finished K S L g hb db c' ⊎ ((k < length hb) × AtReply K S L g hb db k c'))
          (after_sent K c (window g.header_block (length hb) k) [])
  unfolding after_sent is_clear
  after_sent-During g hb db c old k d fits = elim (Bool-cases (length hb == k)) [
    | inr part ↦
        rw (part, after_sent)
          (inr (
            ground arith,
            record {
              linked = record { on = d.linked.on; known = d.linked.known; valid = d.linked.valid };
              held = d.held;
              state = d.state;
              queue = refl;
              reply_free = d.reply_free;
              meta_length = d.meta_length;
              header_length = d.header_length;
              data_length = d.data_length;
              stream = d.stream;
              replied = d.replied;
            },
          ))
    | inl all ↦
        let e : length hb ≡ k = ground arith in
        let whole =
          subst
            (λ o.
              During K S L g replying hb db (length hb) (length db)
                (some (window g.header_block (length hb) old) ∷ []) none o c)
            (take_all k hb (omega arith)) d in
        rw (all, after_sent)
          (Post-mono (Aborts K) (Finished K S L g hb db)
            (λ c'. Finished K S L g hb db c' ⊎ ((k < length hb) × AtReply K S L g hb db k c')) _
            (subst
              (λ m.
                Post (Aborts K) (Finished K S L g hb db)
                  (complete K c (window g.header_block (length hb) m) []))
              e (complete-Finished g hb db c old whole))
            (λ c' f. inl f))
  ]

  abbrev pub Round : Exchange → List ℕ → List ℕ → ℕ → Bool × Endpoint World → Type 0
  Round g hb db k (true, c) =
      Finished K S L g hb db c ⊎ ((m : ℕ) × (m < length hb) × (k < m) × AtReply K S L g hb db m c)
  Round g hb db k (false, c) = AtReply K S L g hb db k c × (is_writable c.interest ≡ true)

  -- Send is called on what remains of the header block.
  send_at-window :
      (p : Process World) (fd : ℤ) (a k : ℕ) (hb : List ℕ)
      → Holds p.heap a hb
      → k ≤ length hb
      → length hb < 2 ^ 32
      → send_at K p fd (some a) k (get_remain_size (window a (length hb) k))
        ≡ done
            ((send p.world fd (drop k hb)).0, record p { world = (send p.world fd (drop k hb)).1 })
  unfolding send_at
  send_at-window p fd a k hb holds h fits =
      let rest = take_all (length hb - k) (drop k hb) (omega (arith, length-drop k hb)) in
      rw (get_remain_size-window a (length hb) k h fits) (
        rw (load-Holds p.heap a k (length hb - k) hb holds (omega arith), send_at)
          (ap (λ bs. done ((send p.world fd bs).0, record p { world = (send p.world fd bs).1 }))
            rest))

  Round-sent :
      (g : Exchange) (hb db : List ℕ) (k n : ℕ)
      → (k + n < length hb → 0 < n)
      → (c : Endpoint World)
      → Finished K S L g hb db c ⊎ ((k + n < length hb) × AtReply K S L g hb db (k + n) c)
      → Round g hb db k (true, c)
  Round-sent g hb db k n moves c (inl f) = inl f
  Round-sent g hb db k n moves c (inr (lt, a)) = inr (k + n, lt, omega (arith, moves lt), a)

  -- The answer of Send to the rest of the reply.
  sent-AtReply :
      (g : Exchange) (hb db : List ℕ) (k n : ℕ) (c : Endpoint World)
      → AtReply K S L g hb db k c
      → count_of (send c.process.world c.sock (drop k hb)).0 ≡ n
      → During K S L g replying hb db
          (length hb)
          (length db)
          (some (window g.header_block (length hb) k) ∷ [])
          none
          (take (k + n) hb)
          (at_world K S L c (send c.process.world c.sock (drop k hb)).1)
  sent-AtReply g hb db k n c d e =
      let c' = at_world K S L c (send c.process.world c.sock (drop k hb)).1 in
      let tx = some (window g.header_block (length hb) k) ∷ [] in
      subst (λ out. During K S L g replying hb db (length hb) (length db) tx none out c')
        (sym (take_add k n hb))
        (at_world-During K S L g replying hb db (length hb) (length db) tx none (take k hb)
          (drop k hb) n c d e)

  got-Round :
      (g : Exchange) (hb db : List ℕ) (k n : ℕ) (c : Endpoint World)
      → AtReply K S L g hb db k c
      → k ≤ length hb
      → (send c.process.world c.sock (drop k hb)).0 ≡ got n
      → Post (Aborts K) (Round g hb db k) (
          after_sent K
            (at_world K S L c (send c.process.world c.sock (drop k hb)).1)
            (mark_handled n (window g.header_block (length hb) k))
            []
          >>= λ c'. done (true, c'))
  got-Round g hb db k n c d fits e =
      let rest = drop k hb in
      let c' = at_world K S L c (send c.process.world c.sock rest).1 in
      let bound : k + n ≤ length hb =
        omega (arith, send_bound c.process.world c.sock rest, length-drop k hb, ap count_of e) in
      let moves : k + n < length hb → 0 < n =
        λ lt. send_progress c.process.world c.sock rest n (omega (arith, length-drop k hb)) e in
      rw (mark_handled-window g.header_block (length hb) k n (omega (arith, d.held.header_fits))) (
        Post-bind (Aborts K) _ (Round g hb db k) _ (λ c''. done (true, c''))
          (after_sent-During g hb db c' k (k + n) (sent-AtReply g hb db k n c d (ap count_of e))
            bound)
          (Round-sent g hb db k n moves))

  blocked-Round :
      (g : Exchange) (hb db : List ℕ) (k errno : ℕ) (c : Endpoint World)
      → AtReply K S L g hb db k c
      → (send c.process.world c.sock (drop k hb)).0 ≡ error errno
      → Post (Aborts K) (Round g hb db k) (
          send_blocked K (at_world K S L c (send c.process.world c.sock (drop k hb)).1) errno
          >>= λ c'. done (false, c'))
  blocked-Round g hb db k errno c d e =
      let c' = at_world K S L c (send c.process.world c.sock (drop k hb)).1 in
      let still : AtReply K S L g hb db k c' =
        subst
          (λ m.
            During K S L g replying hb db (length hb) (length db)
              (some (window g.header_block (length hb) k) ∷ []) none (take m hb) c')
          (add-zero k) (sent-AtReply g hb db k 0 c d (ap count_of e)) in
      Post-bind (Aborts K) _ (Round g hb db k) _ (λ c''. done (false, c''))
        (send_blocked-During K S L g replying hb db (length hb) (length db) _ none (take k hb) c'
          c.process.world c.sock (drop k hb) errno e still)
        (λ c'' h. h)

  -- One round of the loop: the view moves on, the reply is out, or the socket takes no more.
  pub send_front-Round :
      (g : Exchange) (hb db : List ℕ) (k : ℕ) (c : Endpoint World)
      → AtReply K S L g hb db k c
      → k ≤ length hb
      → Post
          (Aborts K)
          (Round g hb db k)
          (send_front K c (some (window g.header_block (length hb) k)) [])
  unfolding send_front
  send_front-Round g hb db k c d fits =
      rw
        (
          send_at-window c.process c.sock g.header_block k hb d.held.header_holds fits
              d.held.header_fits,
          send_front,
        )
        (elim (Reply-cases (send c.process.world c.sock (drop k hb)).0) [
          | inl (n, e) ↦ rw (e, send_front) (got-Round g hb db k n c d fits e)
          | inr (errno, e) ↦ rw (e, send_front) (blocked-Round g hb db k errno c d e)
        ])
