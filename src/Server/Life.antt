-- ===== src/Server/Life.antt =====
-- The server of src/socket/socket_bw_app.cc over its whole life, with all its connections.
use rpc_bench.Common.{
  ℕ, ◌≡◌, ◌≢◌, ◌≤◌, ◌^◌, ◌+◌, ◌<◌, refl, sym, ap, ◌∙◌, subst, Bool, false, Outcome, Cause, pcheck,
  fatal, fault, hung, Post-causes, inl, inr, ℤ, List, [], true, none, some, Bytes, ◌==◌, done, Post,
  Post-mono, Bool-cases, arith,
}
use rpc_bench.Kernel.{Kernel, error, EpollEvent}
use rpc_bench.Kernel.Laws.{Stream, InterestList, Memory}
use rpc_bench.Kernel.Apart.{Same, Apart, Accepts}
use rpc_bench.Poll.Event.{token, is_readable}
use rpc_bench.Socket.{AddrInfo, invalid_socket}
use rpc_bench.Poll.Selector.{select}
use rpc_bench.Endpoint.{Endpoint}
use rpc_bench.Endpoint.History.{Echo}
use rpc_bench.Endpoint.Connection.{Conn-Echo}
use rpc_bench.Endpoint.Lifetime.{with_process, kept-Conn}
use rpc_bench.Server.{
  Server, find, size_of_fd, at_world, init, put, handle_new_connection, handle_event,
}
use rpc_bench.Server.Aborts.{Ends, Unaccepted}
use rpc_bench.Server.Neighbours.{Sound, Handled, put-Sound}
use rpc_bench.Server.Dropping.{is_failed, Breaks, Replaced}
use rpc_bench.Server.Replacing.{Welcomed}
use rpc_bench.Server.Events.{Added}
use rpc_bench.Server.Batch.{IsReady, handle_event-Replaced}
use rpc_bench.Server.Accepting.{IsFresh, handle_new_connection-Sound}

-- Why the server may stop: an event on a connection breaks it, Init aborts, a new socket cannot
-- be accepted, or epoll_wait(2) fails.
pub data Stops (K : Kernel) : Cause → Type 0 where
  in_event : (cause : Cause) → Breaks K cause → Stops K cause
  in_init :
      (s : Server (Kernel.World K)) (ai : AddrInfo) (cause : Cause)
      → init K s ai ≡ fatal cause
      → Stops K cause
  in_accept : (cause : Cause) → Unaccepted K cause → Stops K cause
  in_wait :
      (w : Kernel.World K) (poll : ℤ) (max_events timeout e : ℕ)
      → (select K w poll max_events (some timeout)).0 ≡ error e
      → Stops K (pcheck e)

-- The abort itself as the cause.
pub Ends-cause :
    {A : Type 0} (Q : A → Type 0) (m : Outcome A) → Ends Q m → Post (λ cause. m ≡ fatal cause) Q m
Ends-cause Q (done a) h = h
Ends-cause Q (fatal cause) h = refl
Ends-cause Q fault h = h
Ends-cause Q hung h = h

module _ (K : Kernel) (S : Stream K) (L : InterestList K) (M : Memory K) (A : Apart K S L)
    (B : Accepts K S L) where
  open K use {World}
  open S use {sent}

  -- An event that is handled, or a wait for the next ones. `inputs` is what arrives for each object,
  -- and `hurt` says of which objects some event may say that the socket failed or was closed.
  pub data Step (inputs : ℕ → List ℕ) (hurt : ℕ → Bool) (s s' : Server World) : Type 0 where
    served :
        (fuel : ℕ) (ev : EpollEvent)
        → IsReady K S L M A fuel s ev
        → 2 ^ 32 + 2 ≤ fuel
        → (is_failed ev ≡ true → hurt (token ev) ≡ true)
        → handle_event K fuel s ev ≡ done s'
        → Step inputs hurt s s'
    accepted :
        (fuel : ℕ) (ev : EpollEvent)
        → token ev ≡ size_of_fd s.listener
        → is_readable ev ≡ true
        → IsFresh K S L M A B inputs s
        → handle_event K fuel s ev ≡ done s'
        → Step inputs hurt s s'
    waited :
        (w : World)
        → ((fd : ℤ) → Same K S L fd s.process.world w)
        → s' ≡ at_world K s w
        → Step inputs hurt s s'

  pub data Life (inputs : ℕ → List ℕ) (hurt : ℕ → Bool) (s₀ : Server World)
      : Server World → Type 0 where
    begun : Life inputs hurt s₀ s₀
    later :
        (s s' : Server World)
        → Life inputs hurt s₀ s
        → Step inputs hurt s s'
        → Life inputs hurt s₀ s'

  -- Every object from `first` on that is not hurt is there and open.
  abbrev pub AreOpen : ℕ → (ℕ → Bool) → Server World → Type 0
  AreOpen first hurt s =
      (n : ℕ)
      → first ≤ n
      → n < s.fresh
      → hurt n ≡ false
      → (c : Endpoint World) × (s.objects n ≡ some c) × (c.sock ≢ invalid_socket)

  pub put-AreOpen :
      (first : ℕ) (hurt : ℕ → Bool) (input : List ℕ) (s : Server World) (ev : EpollEvent)
      (c c' : Endpoint World)
      → c.sock ≢ invalid_socket
      → (is_failed ev ≡ true → hurt (token ev) ≡ true)
      → Handled K S L (is_failed ev) input (with_process K S L M c s.process) c'
      → AreOpen first hurt s
      → AreOpen first hurt (put K s (token ev) c')
  put-AreOpen first hurt input s ev c c' live harm h all n from below safe =
      elim (Bool-cases (n == token ev)) [
        | inr other ↦ let (d, e, open_) = all n from below safe in (d, rw other e, open_)
        | inl here ↦
            let same : token ev ≡ n = ground arith in
            elim h.outcome [
              | inl (kept, conn) ↦ (c', rw here refl, λ e. live (sym kept ∙ e))
              | inr (bad, closed) ↦ absurd (cc (harm bad, ap hurt same, safe))
            ]
      ]

  pub Welcomed-AreOpen :
      (first : ℕ) (hurt : ℕ → Bool) (s s' : Server World)
      → Welcomed K S L s s'
      → AreOpen first hurt s
      → AreOpen first hurt s'
  Welcomed-AreOpen first hurt s s' w all n from below safe = elim (Bool-cases (n == s.fresh)) [
    | inl new ↦
        let same : s.fresh ≡ n = ground arith in
        (w.newcomer, subst (λ k. s'.objects k ≡ some w.newcomer) same w.there, w.live)
    | inr old ↦
        let ne : n ≢ s.fresh = ground arith in
        let (d, e, open_) = all n from (omega (arith, w.number)) safe in
        (d, w.kept n d e open_, open_)
  ]

  -- The server is sound, and its objects are open.
  abbrev pub Runs : (ℕ → List ℕ) → ℕ → (ℕ → Bool) → Server World → Type 0
  Runs inputs first hurt s = Sound K S L M inputs s × AreOpen first hurt s

  -- A server without connections.
  pub record IsEmpty (s : Server World) : Type 0 where
    pub no_objects : (n : ℕ) → s.objects n ≡ none
    pub no_endpoints : s.endpoints ≡ []

  pub IsEmpty-Sound : (inputs : ℕ → List ℕ) (s : Server World) → IsEmpty s → Sound K S L M inputs s
  unfolding find
  IsEmpty-Sound inputs s e = record {
    conn = λ n c there live. absurd (nothing n c there);
    tidy = λ n c there. absurd (nothing n c there);
    below = λ n c a there own. absurd (nothing n c there);
    own_blocks = λ n m c d a ne there there' own own'. nothing n c there;
    own_sockets = λ n m c d ne there there' live same. nothing n c there;
    mapped = λ fd n found. absurd (unmapped fd n found);
    mapped_once = λ fd fd' n found found'. absurd (unmapped fd n found);
    no_closed = ap (find invalid_socket) e.no_endpoints;
    numbered = λ n c there. absurd (nothing n c there);
  }
    where
      nothing : (n : ℕ) (c : Endpoint World) → s.objects n ≢ some c
      nothing n c there = cc (e.no_objects n)

      unmapped : (fd : ℤ) (n : ℕ) → find fd s.endpoints ≢ some n
      unmapped fd n found = cc (ap (find fd) e.no_endpoints)

  pub waited-Sound :
      (inputs : ℕ → List ℕ) (s : Server World) (w : World)
      → ((fd : ℤ) → Same K S L fd s.process.world w)
      → Sound K S L M inputs s
      → Sound K S L M inputs (at_world K s w)
  waited-Sound inputs s w calm sound = record {
    conn = λ n c e live.
        let same = calm c.sock in
        kept-Conn K S L M c.sock (inputs n) (with_process K S L M c s.process)
          (record s.process { world = w })
          (record {
            same_incoming = same.incoming_kept;
            same_sent = same.sent_kept;
            same_registered = same.registered_kept c.epfd;
            header_kept = λ a block own held. held;
            data_kept = λ a block own held. held;
          })
          (sound.conn n c e live);
    tidy = sound.tidy;
    below = sound.below;
    own_blocks = sound.own_blocks;
    own_sockets = sound.own_sockets;
    mapped = sound.mapped;
    mapped_once = sound.mapped_once;
    no_closed = sound.no_closed;
    numbered = sound.numbered;
  }

  pub accepted-Runs :
      (inputs : ℕ → List ℕ) (first : ℕ) (hurt : ℕ → Bool) (s : Server World) (fuel : ℕ)
      (ev : EpollEvent)
      → Runs inputs first hurt s
      → token ev ≡ size_of_fd s.listener
      → is_readable ev ≡ true
      → IsFresh K S L M A B inputs s
      → Post (Stops K) (Runs inputs first hurt) (handle_event K fuel s ev)
  unfolding handle_event
  accepted-Runs inputs first hurt s fuel ev (sound, all) listens readable fresh =
      let on_listener : (token ev == size_of_fd s.listener) ≡ true = ground (arith, listens) in
      let Q = λ (s' : Server World).
        Added s.endpoints s.fresh s'.endpoints × Sound K S L M inputs s' × Welcomed K S L s s' in
      rw (on_listener, handle_event)
        (rw (readable, handle_event)
          (Post-causes (Unaccepted K) (Stops K) (Runs inputs first hurt) (handle_new_connection K s)
            (Post-mono (Unaccepted K) Q (Runs inputs first hurt) (handle_new_connection K s)
              (handle_new_connection-Sound K S L M A B inputs s sound fresh)
              (λ s' (new, now, w). (now, Welcomed-AreOpen first hurt s s' w all)))
            in_accept))

  pub served-Runs :
      (inputs : ℕ → List ℕ) (first : ℕ) (hurt : ℕ → Bool) (s : Server World) (fuel : ℕ)
      (ev : EpollEvent)
      → Bytes (inputs (token ev))
      → Runs inputs first hurt s
      → IsReady K S L M A fuel s ev
      → 2 ^ 32 + 2 ≤ fuel
      → (is_failed ev ≡ true → hurt (token ev) ≡ true)
      → Post (Stops K) (Runs inputs first hurt) (handle_event K fuel s ev)
  served-Runs inputs first hurt s fuel ev bytes (sound, all) r long harm =
      let c₀ = with_process K S L M r.endpoint s.process in
      let Q = Replaced K S L A (is_failed ev) (inputs (token ev)) s (token ev) c₀ in
      Post-causes (Breaks K) (Stops K) (Runs inputs first hurt) (handle_event K fuel s ev)
        (Post-mono (Breaks K) Q (Runs inputs first hurt) (handle_event K fuel s ev)
          (handle_event-Replaced K S L M A fuel inputs s ev sound r bytes long)
          (λ s' (c', same, h). subst (Runs inputs first hurt) (sym same) (
            put-Sound K S L M inputs s (token ev) r.endpoint c' (is_failed ev) r.there r.live sound
                h,
            put-AreOpen first hurt (inputs (token ev)) s ev r.endpoint c' r.live harm h all,
          )))
        in_event

  Step-Runs :
      (inputs : ℕ → List ℕ) (first : ℕ) (hurt : ℕ → Bool) (s s' : Server World)
      → ((n : ℕ) → Bytes (inputs n))
      → Step inputs hurt s s'
      → Runs inputs first hurt s
      → Runs inputs first hurt s'
  Step-Runs inputs first hurt s s' bytes (served fuel ev r long harm e) runs =
      subst (Post (Stops K) (Runs inputs first hurt)) e
        (served-Runs inputs first hurt s fuel ev (bytes (token ev)) runs r long harm)
  Step-Runs inputs first hurt s s' bytes (accepted fuel ev listens readable fresh e) runs =
      subst (Post (Stops K) (Runs inputs first hurt)) e
        (accepted-Runs inputs first hurt s fuel ev runs listens readable fresh)
  Step-Runs inputs first hurt s s' bytes (waited w calm e) (sound, all) =
      subst (Runs inputs first hurt) (sym e) (waited-Sound inputs s w calm sound, all)

  pub Life-Runs :
      (inputs : ℕ → List ℕ) (hurt : ℕ → Bool) (s₀ s : Server World)
      → ((n : ℕ) → Bytes (inputs n))
      → IsEmpty s₀
      → Life inputs hurt s₀ s
      → Runs inputs s₀.fresh hurt s
  Life-Runs inputs hurt s₀ s bytes e begun =
      (IsEmpty-Sound inputs s₀ e, λ n from below safe. absurd (omega arith))
  Life-Runs inputs hurt s₀ s bytes e (later s₁ s' l step) =
      Step-Runs inputs s₀.fresh hurt s₁ s' bytes step (Life-Runs inputs hurt s₀ s₁ bytes e l)

  -- On every open connection, what was sent is the headers of the RPCs that its own input begins
  -- with, in order, the last perhaps in part; and every object from `first` on that is not hurt is
  -- there and open.
  abbrev pub Answers : (ℕ → List ℕ) → ℕ → (ℕ → Bool) → Server World → Type 0
  Answers inputs first hurt s =
      ((i : ℕ) (c : Endpoint World)
        → s.objects i ≡ some c
        → c.sock ≢ invalid_socket
        → Echo K S c.sock (inputs i) (sent s.process.world c.sock))
      × AreOpen first hurt s

  pub Runs-Answers :
      (inputs : ℕ → List ℕ) (first : ℕ) (hurt : ℕ → Bool) (s : Server World)
      → Runs inputs first hurt s
      → Answers inputs first hurt s
  Runs-Answers inputs first hurt s (sound, all) = (
    λ i c there live.
        Conn-Echo K S L c.sock (inputs i) (with_process K S L M c s.process)
          (sound.conn i c there live),
    all,
  )

  -- A server that begins without connections, after any sequence of new connections, for which
  -- accept(2) gives descriptors that no endpoint has, of handled events of open ones, with enough
  -- fuel, and of waits: on every open connection, what was sent is the headers of the RPCs that its
  -- own input begins with, in order, the last perhaps in part, whatever went on on the others; and
  -- every connection that was accepted is open still unless one of its events said that its socket
  -- failed or was closed.
  pub Life-Echo :
      (inputs : ℕ → List ℕ) (hurt : ℕ → Bool) (s₀ s : Server World)
      → ((m : ℕ) → Bytes (inputs m))
      → IsEmpty s₀
      → Life inputs hurt s₀ s
      → Answers inputs s₀.fresh hurt s
  Life-Echo inputs hurt s₀ s bytes e l =
      Runs-Answers inputs s₀.fresh hurt s (Life-Runs inputs hurt s₀ s bytes e l)
