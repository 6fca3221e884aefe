-- ===== src/Server/Running.antt =====
-- Run of src/socket/socket_bw_app.cc: Init and the rounds of its loop.
use rpc_bench.Common.{
  ℕ, zero, suc, ◌≡◌, ◌^◌, ◌+◌, ◌≤◌, ◌⊎◌, ℤ, List, [], ◌∷◌, Bool, true, some, Bytes, done,
}
use rpc_bench.Kernel.{Kernel, Reply, got, EpollEvent}
use rpc_bench.Kernel.Laws.{Stream, InterestList, Memory}
use rpc_bench.Kernel.Apart.{Same, Apart, Accepts}
use rpc_bench.Poll.Event.{token, is_readable}
use rpc_bench.Poll.Selector.{select}
use rpc_bench.Server.{Server, size_of_fd, at_world, handle_event, round}
use rpc_bench.Server.Dropping.{is_failed}
use rpc_bench.Server.Batch.{IsReady}
use rpc_bench.Server.Accepting.{IsFresh}
use rpc_bench.Server.Life.{Runs}

module _ (K : Kernel) (S : Stream K) (L : InterestList K) (M : Memory K) (A : Apart K S L)
    (B : Accepts K S L) (fuel : ℕ) (inputs : ℕ → List ℕ) (hurt : ℕ → Bool) where
  open K use {World}

  -- An event of an object that is open, which is hurt if the event says that its socket failed or was
  -- closed, or EPOLLIN of the listener, where accept(2) gives a descriptor that no endpoint has.
  abbrev pub IsServable : Server World → EpollEvent → Type 0
  IsServable s ev =
      (IsReady K S L M A fuel s ev × (is_failed ev ≡ true → hurt (token ev) ≡ true))
      ⊎ ((token ev ≡ size_of_fd s.listener)
          × (is_readable ev ≡ true)
          × IsFresh K S L M A B inputs s)

  -- Each event of a list can be served when its turn comes.
  abbrev pub AreServable : Server World → List EpollEvent → Type 0
  AreServable s [] = Unit {0}
  AreServable s (ev ∷ rest) =
      IsServable s ev
      × ((s' : Server World) → handle_event K fuel s ev ≡ done s' → AreServable s' rest)

  module _ (max_events timeout : ℕ) where
    -- epoll_wait(2) of a round.
    abbrev pub waited : Server World → Reply (List EpollEvent) × World
    waited s = select K s.process.world s.poll max_events (some timeout)

    -- In `n` rounds, to wait changes no socket, and the events can be served.
    abbrev pub IsServed : ℕ → Server World → Type 0
    IsServed zero s = Unit {0}
    IsServed (suc n) s =
        ((fd : ℤ) → Same K S L fd s.process.world (waited s).1)
        × ((events : List EpollEvent)
            → (waited s).0 ≡ got events
            → AreServable (at_world K s (waited s).1) events)
        × ((s' : Server World) → round K fuel max_events timeout s ≡ done s' → IsServed n s')

  module _ (bytes : (n : ℕ) → Bytes (inputs n)) (long : 2 ^ 32 + 2 ≤ fuel) (first : ℕ) where
    -- The server after some event.
    abbrev Going : Server World → Type 0
    Going = Runs K S L M A B inputs first hurt
