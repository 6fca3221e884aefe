-- ===== src/Server/Batch.antt =====
-- The events of one epoll_wait in the loop of src/socket/socket_bw_app.cc.
use rpc_bench.Common.{
  ℕ, ◌≡◌, ◌≢◌, ◌<◌, ◌≤◌, ◌^◌, ◌+◌, List, [], ◌∷◌, All, false, some, Bytes, Post, ◌==◌, arith,
}
use rpc_bench.Kernel.{Kernel, EpollEvent}
use rpc_bench.Kernel.Laws.{Stream, InterestList, Memory}
use rpc_bench.Kernel.Apart.{Same, Apart}
use rpc_bench.Poll.Event.{token}
use rpc_bench.Socket.{invalid_socket}
use rpc_bench.Heap.{Holds}
use rpc_bench.Endpoint.{Endpoint}
use rpc_bench.Endpoint.Spared.{Owns}
use rpc_bench.Endpoint.Lifetime.{with_process}
use rpc_bench.Server.{Server, size_of_fd, handle_event}
use rpc_bench.Server.Neighbours.{Sound}
use rpc_bench.Server.Dropping.{is_failed, Breaks, Replaced, handle_data-Replaced}

-- No two events are of one object.
abbrev pub AreDistinct : List EpollEvent → Type 0
AreDistinct [] = Unit {0}
AreDistinct (ev ∷ rest) = All (λ other. token other ≢ token ev) rest × AreDistinct rest

module _ (K : Kernel) (S : Stream K) (L : InterestList K) (M : Memory K) (A : Apart K S L) where
  open K use {World}
  open S use {patience}

  -- The event is of an object that is open, whose delays the fuel covers.
  pub record IsReady (fuel : ℕ) (s : Server World) (ev : EpollEvent) : Type 0 where
    pub endpoint : Endpoint World
    pub there : s.objects (token ev) ≡ some endpoint
    pub live : endpoint.sock ≢ invalid_socket
    pub not_listener : token ev ≢ size_of_fd s.listener
    pub patient : 8 + patience s.process.world endpoint.sock < fuel

  pub handle_event-Replaced :
      (fuel : ℕ) (inputs : ℕ → List ℕ) (s : Server World) (ev : EpollEvent)
      → Sound K S L M inputs s
      → (r : IsReady fuel s ev) → Bytes (inputs (token ev))
      → 2 ^ 32 + 2 ≤ fuel
      → Post
          (Breaks K)
          (Replaced K S L A
            (is_failed ev)
            (inputs (token ev))
            s
            (token ev)
            (with_process K S L M r.endpoint s.process))
          (handle_event K fuel s ev)
  unfolding handle_event
  handle_event-Replaced fuel inputs s ev sound r bytes long =
      let data_event : (token ev == size_of_fd s.listener) ≡ false =
        ground (arith, r.not_listener) in
      rw (data_event, handle_event)
        (handle_data-Replaced K S L M A fuel (inputs (token ev)) s ev r.endpoint r.there r.live
          (sound.conn (token ev) r.endpoint r.there r.live)
          (sound.tidy (token ev) r.endpoint r.there) bytes
          (record { patient = r.patient; long = long }) sound.no_closed)

  -- What the events made of the server: the other objects are as they were, with their sockets and
  -- their blocks, and an open object stays open on its socket where no event says that it failed.
  pub record Handles (events : List EpollEvent) (s s' : Server World) : Type 0 where
    pub others : (n : ℕ) → All (λ ev. n ≢ token ev) events → s'.objects n ≡ s.objects n
    pub sockets :
        (n : ℕ) (d : Endpoint World)
        → All (λ ev. n ≢ token ev) events
        → s.objects n ≡ some d
        → d.sock ≢ invalid_socket
        → Same K S L d.sock s.process.world s'.process.world
    pub blocks :
        (n : ℕ) (d : Endpoint World) (a : ℕ) (block : List ℕ)
        → All (λ ev. n ≢ token ev) events
        → s.objects n ≡ some d
        → Owns d a
        → Holds s.process.heap a block
        → Holds s'.process.heap a block
    pub stays :
        (n : ℕ) (d : Endpoint World)
        → All (λ ev. n ≡ token ev → is_failed ev ≡ false) events
        → s.objects n ≡ some d
        → d.sock ≢ invalid_socket
        → (d' : Endpoint World) × (s'.objects n ≡ some d') × (d'.sock ≡ d.sock)
