-- ===== src/Server/Dropping.antt =====
-- An event on an endpoint of the server of src/socket/socket_bw_app.cc, beside the other endpoints.
use rpc_bench.Common.{
  ℕ, ◌≡◌, ◌≢◌, refl, sym, ap, ◌∙◌, subst, inl, inr, ℤ, List, Bool, true, false, ◌||◌, none, some,
  Bytes, Outcome, Cause, pcheck, Post, Post-bind, Post-both, Post-mono, Post-causes, IfDone,
  Bool-cases, ◌==ℤ◌, ==ℤ_iff,
}
use rpc_bench.Kernel.{Kernel, error, ctl_del, close, EpollEvent}
use rpc_bench.Kernel.Laws.{Stream, InterestList, Memory, Reply-cases}
use rpc_bench.Kernel.Apart.{Spares, Apart, Spares-trans}
use rpc_bench.Poll.Event.{
  token, is_readable, is_writable, is_error, is_read_closed, is_write_closed,
}
use rpc_bench.Poll.Selector.{deregister}
use rpc_bench.Socket.{invalid_socket, is_closed, get_sock_error, close_socket}
use rpc_bench.Socket.Growth.{Unread, Aborts, no_sock_error}
use rpc_bench.Endpoint.{Endpoint}
use rpc_bench.Endpoint.Send.{on_send_ready}
use rpc_bench.Endpoint.Receive.{on_recv_ready}
use rpc_bench.Endpoint.Handlers.{at_world, on_error}
use rpc_bench.Endpoint.Connection.{Conn}
use rpc_bench.Endpoint.Lifetime.{IsEnough, with_process, on_recv_ready-Conn, on_send_ready-Conn}
use rpc_bench.Endpoint.Spared.{IsTidy, Kept, Stays, Kept-same, Kept-trans}
use rpc_bench.Endpoint.SparedSending.{on_send_ready-Stays}
use rpc_bench.Endpoint.SparedReceiving.{on_recv_ready-Stays}
use rpc_bench.Server.{Server, find, erase, put, release, when, drop_failed, handle_data}
use rpc_bench.Server.Events.{erase_absent}
use rpc_bench.Server.Neighbours.{Conn-below, Handled}

-- The event says that the socket failed or was closed.
abbrev pub is_failed : EpollEvent → Bool
is_failed ev = is_error ev || is_read_closed ev || is_write_closed ev

-- Why OnError may abort: SO_ERROR cannot be read, or the socket cannot be taken off the epoll
-- instance.
pub data Undropped (K : Kernel) (cause : Cause) : Type 0 where
  unknown : Unread K cause → Undropped K cause
  not_removed :
      (w : Kernel.World K) (epfd fd : ℤ) (e : ℕ)
      → (Kernel.epoll_ctl K w epfd ctl_del fd none).0 ≡ error e
      → cause ≡ pcheck e
      → Undropped K cause

-- Why an event may end the server: a handler aborts, or OnError does.
pub data Breaks (K : Kernel) (cause : Cause) : Type 0 where
  in_handler : Aborts K cause → Breaks K cause
  in_drop : Undropped K cause → Breaks K cause

open_fd : (fd : ℤ) → fd ≢ invalid_socket → (fd ==ℤ invalid_socket) ≡ false
open_fd fd live = elim (Bool-cases (fd ==ℤ invalid_socket)) [
  | inl e ↦ absurd (live ((==ℤ_iff fd invalid_socket).0 e))
  | inr e ↦ e
]

module _ (K : Kernel) where
  open K use {World, epoll_ctl, getsockopt, call}

  -- The world after SO_ERROR is read, the socket is taken off the epoll instance, and close(2).
  abbrev pub shut : Endpoint World → World
  shut c =
      let w₁ = (getsockopt c.process.world c.sock 4).1 in
      let w₂ = (epoll_ctl w₁ c.epfd ctl_del c.sock none).1 in (call w₂ (close c.sock)).1

  -- The endpoint without its socket.
  abbrev pub dropped : Endpoint World → Endpoint World
  dropped c = record (at_world K c (shut c)) { sock = invalid_socket }

  on_error-dropped :
      (c : Endpoint World)
      → c.sock ≢ invalid_socket
      → Post (Undropped K) (λ c'. c' ≡ dropped c) (on_error K c)
  unfolding on_error get_sock_error deregister close_socket is_closed
  on_error-dropped c live =
      let w = c.process.world in
      let w₁ = (getsockopt w c.sock 4).1 in
      elim (Reply-cases (getsockopt w c.sock 4).0) [
        | inr (errno, e) ↦ rw (e, on_error) (unknown (no_sock_error w c.sock errno e))
        | inl (code, e) ↦
            rw (e, on_error)
              (elim (Reply-cases (epoll_ctl w₁ c.epfd ctl_del c.sock none).0) [
                | inr (errno, e') ↦ rw (e', on_error) (not_removed w₁ c.epfd c.sock errno e' refl)
                | inl (ok, e') ↦
                    rw (e', on_error)
                      (let open_ : (c.sock ==ℤ invalid_socket) ≡ false = open_fd c.sock live in
                        rw (open_, on_error) refl)
              ])
      ]

  pub drop_failed-Kept :
      (s : Server World) (object : ℕ) (c : Endpoint World)
      → c.sock ≢ invalid_socket
      → find invalid_socket s.endpoints ≡ none
      → Post (Undropped K) (λ s'. s' ≡ put K s object (dropped c)) (drop_failed K s object true c)
  unfolding drop_failed release
  drop_failed-Kept s object c live absent =
      Post-bind (Undropped K) (λ c'. c' ≡ dropped c) (λ s'. s' ≡ put K s object (dropped c))
        (on_error K c) _ (on_error-dropped c live)
        (λ c' same.
          let fd : c'.sock ≡ invalid_socket = ap (λ x. x.sock) same in
          rw (ap (λ k. find k s.endpoints) fd ∙ absent, release)
            (ap (λ m. record (put K s object c') { endpoints = m })
                (ap (λ k. erase k s.endpoints) fd ∙ erase_absent invalid_socket s.endpoints absent)
              ∙ ap (put K s object) same))

module _ (K : Kernel) (S : Stream K) (L : InterestList K) (A : Apart K S L) where
  open K use {World, epoll_ctl, getsockopt, call}
  open A use {ctl_apart, getsockopt_apart, close_apart}

  shut-Spares : (c : Endpoint World) → Spares K S L c.sock c.process.world (shut K c)
  shut-Spares c =
      let w = c.process.world in
      let w₁ = (getsockopt w c.sock 4).1 in
      let w₂ = (epoll_ctl w₁ c.epfd ctl_del c.sock none).1 in
      Spares-trans K S L c.sock w w₁ _ (getsockopt_apart w c.sock 4) (
        Spares-trans K S L c.sock w₁ w₂ _ (ctl_apart w₁ c.epfd ctl_del c.sock none)
          (close_apart w₂ c.sock))

  -- The endpoint is sound, and it touched its own socket and blocks alone since `c`.
  abbrev pub Serves : List ℕ → Endpoint World → Endpoint World → Type 0
  Serves input c c' = Conn K S L c.sock input c' × IsTidy c' × Kept K S L c c'

  Serves-Handled :
      (failed : Bool) (input : List ℕ) (c c' : Endpoint World)
      → Serves input c c'
      → Handled K S L failed input c c'
  Serves-Handled failed input c c' (conn, tidy, kept) = record {
    tidy = tidy;
    moved = kept.moved;
    owners = kept.owners;
    below = λ a own. Conn-below K S L c.sock input c' a conn own;
    outcome = inl (kept.same_sock, subst (λ fd. Conn K S L fd input c') (sym kept.same_sock) conn);
  }

  dropped-Handled :
      (input : List ℕ) (c c₁ : Endpoint World)
      → Serves input c c₁
      → Handled K S L true input c (dropped K c₁)
  dropped-Handled input c c₁ (conn, tidy, kept) = record {
    tidy = record {
      header_view = tidy.header_view;
      data_view = tidy.data_view;
      reply = tidy.reply;
      queue = tidy.queue;
    };
    moved = record {
      spared =
          Spares-trans K S L c.sock c.process.world c₁.process.world (shut K c₁) kept.moved.spared (
            subst (λ fd. Spares K S L fd c₁.process.world (shut K c₁)) kept.same_sock
              (shut-Spares c₁));
      kept = kept.moved.kept;
      later = kept.moved.later;
    };
    owners = kept.owners;
    below = λ a own. Conn-below K S L c.sock input c₁ a conn own;
    outcome = inr (refl, refl);
  }

  -- What an event on `object` makes of the server: a new value of the object, and nothing else.
  abbrev pub Replaced : Bool → List ℕ → Server World → ℕ → Endpoint World → Server World → Type 0
  Replaced failed input s object c s' =
      (c' : Endpoint World) × (s' ≡ put K s object c') × Handled K S L failed input c c'

  drop_failed-Replaced :
      (input : List ℕ) (s : Server World) (object : ℕ) (c c₁ : Endpoint World) (failed : Bool)
      → Serves input c c₁
      → c.sock ≢ invalid_socket
      → find invalid_socket s.endpoints ≡ none
      → Post (Breaks K) (Replaced failed input s object c) (drop_failed K s object failed c₁)
  unfolding drop_failed
  drop_failed-Replaced input s object c c₁ false serves live absent =
      (c₁, refl, Serves-Handled false input c c₁ serves)
  drop_failed-Replaced input s object c c₁ true serves live absent =
      Post-causes (Undropped K) (Breaks K) (Replaced true input s object c)
        (drop_failed K s object true c₁)
        (Post-mono (Undropped K) _ (Replaced true input s object c) (drop_failed K s object true c₁)
          (drop_failed-Kept K s object c₁ (λ e. live (sym serves.2.same_sock ∙ e)) absent)
          (λ s' same. (dropped K c₁, same, dropped-Handled input c c₁ serves)))
        (λ cause u. in_drop u)

module _ (K : Kernel) (S : Stream K) (L : InterestList K) (M : Memory K) (A : Apart K S L) where
  open K use {World}

  -- A handler that may run.
  when-Serves :
      (input : List ℕ) (c c₁ : Endpoint World) (b : Bool)
      (handler : Endpoint World → Outcome (Endpoint World))
      → Serves K S L A input c c₁
      → Post (Aborts K) (Conn K S L c.sock input) (handler c₁)
      → IfDone (Stays K S L c₁) (handler c₁)
      → Post (Breaks K) (Serves K S L A input c) (when K b handler c₁)
  when-Serves input c c₁ false handler serves conn stays = serves
  when-Serves input c c₁ true handler serves conn stays =
      Post-causes (Aborts K) (Breaks K) (Serves K S L A input c) (handler c₁)
        (Post-mono (Aborts K) _ (Serves K S L A input c) (handler c₁)
          (Post-both (Aborts K) (Conn K S L c.sock input) (Stays K S L c₁) (handler c₁) conn stays)
          (λ c₂ (i, (tidy, kept)). (i, tidy, Kept-trans K S L c c₁ c₂ serves.2 kept)))
        (λ cause a. in_handler a)

  -- An event on an object whose connection is open and sound.
  pub handle_data-Replaced :
      (fuel : ℕ) (input : List ℕ) (s : Server World) (ev : EpollEvent) (c : Endpoint World)
      → s.objects (token ev) ≡ some c
      → c.sock ≢ invalid_socket
      → Conn K S L c.sock input (with_process K S L M c s.process)
      → IsTidy c
      → Bytes input
      → IsEnough K S L M (with_process K S L M c s.process) fuel
      → find invalid_socket s.endpoints ≡ none
      → Post
          (Breaks K)
          (Replaced K S L A (is_failed ev) input s (token ev) (with_process K S L M c s.process))
          (handle_data K fuel s ev)
  unfolding handle_data
  handle_data-Replaced fuel input s ev c there live conn tidy bytes enough absent =
      let c₀ = with_process K S L M c s.process in
      let Done = Replaced K S L A (is_failed ev) input s (token ev) c₀ in
      let tidy₀ : IsTidy c₀ = record {
        header_view = tidy.header_view;
        data_view = tidy.data_view;
        reply = tidy.reply;
        queue = tidy.queue;
      } in
      let start : Serves K S L A input c₀ c₀ =
        (conn, tidy₀, Kept-same K S L c₀ c₀ refl refl refl refl refl refl) in
      rw (there, handle_data)
        (Post-bind (Breaks K) (Serves K S L A input c₀) Done _ _
          (when-Serves input c₀ c₀ (is_readable ev) (on_recv_ready K fuel) start
            (on_recv_ready-Conn K S L M fuel c.sock input c₀ conn bytes enough)
            (on_recv_ready-Stays K S L A fuel c₀ tidy₀))
          (λ c₁ s₁.
            Post-bind (Breaks K) (Serves K S L A input c₀) Done _ _
              (when-Serves input c₀ c₁ (is_writable ev) (on_send_ready K fuel) s₁
                (on_send_ready-Conn K S L M fuel c.sock input c₁ s₁.0 enough.long)
                (on_send_ready-Stays K S L A fuel c₁ s₁.1))
              (λ c₂ s₂. drop_failed-Replaced K S L A input s (token ev) c₀ c₂ _ s₂ live absent)))
