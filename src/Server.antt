-- ===== src/Server.antt =====
-- class SocketBwServerApp of src/socket/socket_bw_app.{h,cc}. An endpoint is an object of its own, by
-- the number that its token carries; the memory and the world are those of the process.
pub mod Aborts
pub mod Events
pub mod Serving
pub mod Neighbours
pub mod Dropping
pub mod Batch
pub mod Welcoming
pub mod Replacing
pub mod Ending
pub mod Accepting
pub mod Life
pub mod Starting
pub mod Running
use rpc_bench.Common.{
  ℕ, zero, suc, ◌+◌, ◌-◌, ◌^◌, ◌||◌, ℤ, pos, negsuc, ◌==ℤ◌, Bool, true, false, List, [], ◌∷◌,
  Option, none, some, Outcome, done, fatal, hung, check, pcheck, ◌>>=◌, ◌>>◌, require, deref,
  if◌then◌else◌, ◌==◌,
}
use rpc_bench.Kernel.{Kernel, Reply, got, error, EpollEvent}
use rpc_bench.Poll.{Interest, interest, readable}
use rpc_bench.Poll.Event.{
  token, is_readable, is_writable, is_error, is_read_closed, is_write_closed,
}
use rpc_bench.Poll.Selector.{register, select}
use rpc_bench.Socket.{
  AddrInfo, create, set_reuse_addr, set_non_block, bind_socket, listen_socket, accept_socket,
}
use rpc_bench.Socket.Transfer.{Process}
use rpc_bench.Endpoint.{Endpoint, new_endpoint}
use rpc_bench.Endpoint.Send.{on_send_ready}
use rpc_bench.Endpoint.Receive.{on_recv_ready}
use rpc_bench.Endpoint.Handlers.{on_accepted, on_error, destroy_endpoint}

-- `endpoints` is the map `endpoints_`, from descriptors to objects.
pub record Server (W : Type 0) : Type 0 where
  pub process : Process W
  pub listener : ℤ
  pub poll : ℤ
  pub endpoints : List (ℤ × ℕ)
  pub objects : ℕ → Option (Endpoint W)
  pub fresh : ℕ

-- endpoints_.find, endpoints_.erase and the assignment endpoints_[fd] = object.
unfoldable pub find : ℤ → List (ℤ × ℕ) → Option ℕ
find fd [] = none
find fd ((key, object) ∷ rest) = if key ==ℤ fd then some object else find fd rest

unfoldable pub erase : ℤ → List (ℤ × ℕ) → List (ℤ × ℕ)
erase fd [] = []
erase fd ((key, object) ∷ rest) =
    let others = erase fd rest in if key ==ℤ fd then others else (key, object) ∷ others

unfoldable pub assign : ℤ → ℕ → List (ℤ × ℕ) → List (ℤ × ℕ)
assign fd object entries = (fd, object) ∷ erase fd entries

-- static_cast<size_t>(listener_.sockfd).
unfoldable pub size_of_fd : ℤ → ℕ
size_of_fd (pos n) = n
size_of_fd (negsuc n) = 2 ^ 64 - 1 - n

module _ (K : Kernel) where
  open K use {World}

  abbrev pub at_world : Server World → World → Server World
  at_world s w = record s { process = record s.process { world = w } }

  -- An object with what it is now, and the process as the object left it.
  abbrev pub put : Server World → ℕ → Endpoint World → Server World
  put s object e = record s {
    process = e.process;
    objects = λ n. if n == object then some e else s.objects n;
  }

  -- The last shared_ptr of an object is gone: its destructor runs.
  unfoldable pub release : Server World → Option ℕ → Outcome (Server World)
  release s none = done s
  release s (some object) = do
    e ← deref (s.objects object)
    p ← destroy_endpoint K (record e { process = s.process })
    done (record s { process = p; objects = λ n. if n == object then none else s.objects n })

  -- Init(), for the address that AddrInfo found.
  unfoldable pub init : Server World → AddrInfo → Outcome (Server World)
  unfolding create set_reuse_addr set_non_block bind_socket listen_socket register interest
  init s ai = do
    created ← create K s.process.world ai
    let fd = created.0
    w ← set_reuse_addr K created.1 fd true
    w' ← set_non_block K w fd true
    w'' ← bind_socket K w' fd ai
    w''' ← listen_socket K w'' fd 128
    only_readable ← interest readable
    w'''' ← register K w''' s.poll fd (size_of_fd fd) only_readable
    done (at_world (record s { listener = fd }) w'''')

  unfoldable pub handle_new_connection : Server World → Outcome (Server World)
  handle_new_connection s = do
    accepted ← accept_socket K s.process.world s.listener
    let p = record s.process { world = accepted.1 }
    e ← on_accepted K (new_endpoint p s.poll s.fresh accepted.0)
    let s' = record (put s s.fresh e) {
      endpoints = assign e.sock s.fresh s.endpoints;
      fresh = suc s.fresh;
    }
    release s' (find e.sock s.endpoints)

  -- The body of the loop over the events; the fuel is that of the handlers.
  abbrev pub when :
      Bool → (Endpoint World → Outcome (Endpoint World)) → Endpoint World → Outcome (Endpoint World)
  when true f e = f e
  when false f e = done e

  -- OnError, and endpoints_.erase(endpoint->fd()).
  unfoldable pub drop_failed : Server World → ℕ → Bool → Endpoint World → Outcome (Server World)
  drop_failed s object false e = done (put s object e)
  drop_failed s object true e = do
    e' ← on_error K e
    let s' = record (put s object e') { endpoints = erase e'.sock s.endpoints }
    release s' (find e'.sock s.endpoints)

  unfoldable pub handle_data : ℕ → Server World → EpollEvent → Outcome (Server World)
  handle_data fuel s ev = do
    e ← deref (s.objects (token ev))
    e' ← when (is_readable ev) (on_recv_ready K fuel) (record e { process = s.process })
    e'' ← when (is_writable ev) (on_send_ready K fuel) e'
    drop_failed s (token ev) (is_error ev || is_read_closed ev || is_write_closed ev) e''

  unfoldable pub handle_event : ℕ → Server World → EpollEvent → Outcome (Server World)
  handle_event fuel s ev = elim (token ev == size_of_fd s.listener) [
    | true ↦ do require (is_readable ev) check; handle_new_connection s
    | false ↦ handle_data fuel s ev
  ]

  unfoldable pub handle_events : ℕ → Server World → List EpollEvent → Outcome (Server World)
  handle_events fuel s [] = done s
  handle_events fuel s (ev ∷ rest) = do s' ← handle_event fuel s ev; handle_events fuel s' rest

  -- One round of while (1).
  unfoldable pub round : ℕ → ℕ → ℕ → Server World → Outcome (Server World)
  unfolding select
  round fuel max_events timeout s =
      answer (select K s.process.world s.poll max_events (some timeout))
    where
      answer : Reply (List EpollEvent) × World → Outcome (Server World)
      answer (got events, w) = handle_events fuel (at_world s w) events
      answer (error e, w) = fatal (pcheck e)

  -- The first `n` rounds of while (1).
  unfoldable pub rounds : ℕ → ℕ → ℕ → ℕ → Server World → Outcome (Server World)
  rounds zero fuel max_events timeout s = done s
  rounds (suc n) fuel max_events timeout s = do
    s' ← round fuel max_events timeout s
    rounds n fuel max_events timeout s'

  -- Run(): Init and the loop, up to its first `n` rounds.
  unfoldable pub run : ℕ → ℕ → ℕ → ℕ → Server World → AddrInfo → Outcome (Server World)
  run n fuel max_events timeout s ai = do s' ← init s ai; rounds n fuel max_events timeout s'
