-- ===== src/Endpoint/Interests.antt =====
-- What a call of send, and a change of the interest, leave of an RPC in OnSendReady of
-- src/socket/bw_server_endpoint.cc.
use rpc_bench.Common.{
  ℕ, ◌≡◌, refl, sym, ap, ◌∙◌, inl, inr, ℤ, List, ◌++◌, append_assoc, Option, some, true, take, done,
  Post, Bool-cases,
}
use rpc_bench.Kernel.{Kernel, error, ctl_mod}
use rpc_bench.Kernel.Laws.{Stream, InterestList, would_block, count_of}
use rpc_bench.Buffer.{Buffer}
use rpc_bench.Poll.{Interest, is_writable, add_assign, writable}
use rpc_bench.Poll.Bits.{IsValid, add_assign-writable}
use rpc_bench.Poll.Selector.{event_of, reregister}
use rpc_bench.Socket.Growth.{Aborts, send_failed}
use rpc_bench.Endpoint.{Endpoint, State}
use rpc_bench.Endpoint.Send.{set_interest, send_blocked}
use rpc_bench.Endpoint.Frames.{Exchange, Linked, During}

module _ (K : Kernel) (S : Stream K) (L : InterestList K) where
  open K use {World, send, epoll_ctl}
  open S use {
    incoming, sent, send_bound, send_sent, send_incoming, send_progress, ctl_incoming, ctl_sent,
  }
  open L use {registered, mod_ok, mod_registered, send_registered}

  abbrev pub at_world : Endpoint World → World → Endpoint World
  at_world c w = record c { process = record c.process { world = w } }

  -- The endpoint after its interest is changed in the kernel too.
  abbrev with_interest : Endpoint World → Interest → Endpoint World
  with_interest c i =
      record (at_world c
        (epoll_ctl c.process.world c.epfd ctl_mod c.sock (some (event_of K c.self i))).1) {
          interest = i;
        }

  pub set_interest-done :
      (fd : ℤ) (c : Endpoint World) (i : Interest)
      → Linked K S L fd c
      → set_interest K c i ≡ done (with_interest c i)
  unfolding set_interest reregister
  set_interest-done fd c i l =
      rw
        (
          mod_ok c.process.world c.epfd c.sock _ (event_of K c.self i) l.known,
          reregister,
          set_interest,
        )
        refl

  with_interest-Linked :
      (fd : ℤ) (c : Endpoint World) (i : Interest)
      → Linked K S L fd c
      → IsValid i
      → Linked K S L fd (with_interest c i)
  with_interest-Linked fd c i l v = record {
    on = l.on;
    known =
        mod_registered c.process.world c.epfd c.sock (event_of K c.self i)
          (mod_ok c.process.world c.epfd c.sock _ (event_of K c.self i) l.known);
    valid = v;
  }

  -- Nothing of an RPC changes with the interest.
  pub with_interest-During :
      (g : Exchange) (st : State) (hb db : List ℕ) (i j : ℕ) (tx : List (Option Buffer))
      (rb : Option Buffer) (out : List ℕ) (c : Endpoint World) (n : Interest)
      → During K S L g st hb db i j tx rb out c
      → IsValid n
      → During K S L g st hb db i j tx rb out (with_interest c n)
  with_interest-During g st hb db i j tx rb out c n d v = record {
    linked = with_interest-Linked g.fd c n d.linked v;
    held = d.held;
    state = d.state;
    queue = d.queue;
    reply_free = d.reply_free;
    meta_length = d.meta_length;
    header_length = d.header_length;
    data_length = d.data_length;
    stream =
        d.stream
        ∙ ap (λ s. g.meta ++ (take i hb ++ (take j db ++ s)))
            (sym (
              ctl_incoming c.process.world c.epfd ctl_mod c.sock (some (event_of K c.self n))
                c.sock));
    replied =
        ctl_sent c.process.world c.epfd ctl_mod c.sock (some (event_of K c.self n)) c.sock
        ∙ d.replied;
  }

  -- A call of send moves the world on.
  pub at_world-During :
      (g : Exchange) (st : State) (hb db : List ℕ) (i j : ℕ) (tx : List (Option Buffer))
      (rb : Option Buffer) (out bytes : List ℕ) (n : ℕ) (c : Endpoint World)
      → During K S L g st hb db i j tx rb out c
      → count_of (send c.process.world c.sock bytes).0 ≡ n
      → During K S L g st hb db i j tx rb
          (out ++ take n bytes)
          (at_world c (send c.process.world c.sock bytes).1)
  at_world-During g st hb db i j tx rb out bytes n c d e = record {
    linked = record {
      on = d.linked.on;
      known = send_registered c.process.world c.sock bytes c.epfd c.sock ∙ d.linked.known;
      valid = d.linked.valid;
    };
    held = d.held;
    state = d.state;
    queue = d.queue;
    reply_free = d.reply_free;
    meta_length = d.meta_length;
    header_length = d.header_length;
    data_length = d.data_length;
    stream =
        d.stream
        ∙ ap (λ s. g.meta ++ (take i hb ++ (take j db ++ s)))
            (sym (send_incoming c.process.world c.sock bytes));
    replied =
        send_sent c.process.world c.sock bytes
        ∙ ap (λ k. sent c.process.world c.sock ++ take k bytes) e
        ∙ ap (λ s. s ++ take n bytes) d.replied
        ∙ append_assoc g.output out (take n bytes);
  }

  -- The socket takes no more: the endpoint is as it was, and waits for EPOLLOUT.
  pub send_blocked-During :
      (g : Exchange) (st : State) (hb db : List ℕ) (i j : ℕ) (tx : List (Option Buffer))
      (rb : Option Buffer) (out : List ℕ) (c : Endpoint World) (w : World) (fd : ℤ) (bytes : List ℕ)
      (errno : ℕ)
      → (send w fd bytes).0 ≡ error errno
      → During K S L g st hb db i j tx rb out c
      → Post
          (Aborts K)
          (λ c'. During K S L g st hb db i j tx rb out c' × (is_writable c'.interest ≡ true))
          (send_blocked K c errno)
  unfolding send_blocked
  send_blocked-During g st hb db i j tx rb out c w fd bytes errno failed d =
      elim (Bool-cases (would_block errno)) [
        | inr hard ↦ rw (hard, send_blocked) (send_failed w fd bytes errno failed hard)
        | inl wait ↦
            rw (wait, send_blocked)
              (elim (Bool-cases (is_writable c.interest)) [
                | inl ready ↦ rw (ready, send_blocked) (d, ready)
                | inr deaf ↦
                    let more : Interest = add_assign c.interest (record { inner = writable }) in
                    let (valid, armed) = add_assign-writable c.interest d.linked.valid in
                    rw (deaf, send_blocked)
                      (rw (set_interest-done g.fd c more d.linked)
                        (with_interest-During g st hb db i j tx rb out c more d valid, armed))
              ])
      ]
