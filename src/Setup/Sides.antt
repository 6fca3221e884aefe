-- ===== src/Setup/Sides.antt =====
-- Which calls are those of a client and of a server.
use rpc_bench.Common.{
  ℕ, zero, suc, ◌+◌, ◌≡◌, refl, pos, negsuc, ◌&&◌, Bool, true, false, List, [], ◌∷◌, All, ◌++◌,
  some, replicate, arith,
}
use rpc_bench.Options.{CommandOpts}
use rpc_bench.App.{App, server_app, client_app, grpc_tput}
use rpc_bench.Setup.Decimal.{read_from}
use rpc_bench.Setup.{
  build_and_start, Call, channel, local_channel, brpc_channel, completion_queue, listening_port,
  start_brpc, zmq_ctx_new, zmq_req, zmq_connect, zmq_bind, get_addr_info,
}
use Prim.Native.String.{String, ◌++◌ as concat}

-- A text with the digits of a number.
abbrev pub IsNumber : ℕ → String → Type 0
IsNumber n t = read_from t 0 ≡ some n

-- host:port.
abbrev pub IsAddress : String → ℕ → String → Type 0
IsAddress host port a = (t : String) × (a ≡ concat host (concat ":" t)) × IsNumber port t

-- A call of a client of `host` and `port`, which opens no other address, and listens nowhere.
abbrev pub IsOfClient : String → ℕ → Call → Type 0
IsOfClient host port (channel a) = IsAddress host port a
IsOfClient host port (local_channel a) = IsAddress host port a
IsOfClient host port (brpc_channel a) = IsAddress host port a
IsOfClient host port (zmq_connect a) =
    (t : String) × (a ≡ concat "tcp://" t) × IsAddress host port t
IsOfClient host port zmq_ctx_new = Unit {0}
IsOfClient host port zmq_req = Unit {0}
IsOfClient host port completion_queue = Unit {0}
IsOfClient host port _ = ⊥

-- A call of a server at `port` of every interface, which connects to nothing.
abbrev pub IsOfServer : ℕ → Call → Type 0
IsOfServer port (listening_port a) = IsAddress "0.0.0.0" port a
IsOfServer port (start_brpc n) = n ≡ pos port
IsOfServer port (zmq_bind a) = (t : String) × (a ≡ concat "tcp://" t) × IsAddress "0.0.0.0" port t
IsOfServer port (channel a) = ⊥
IsOfServer port (local_channel a) = ⊥
IsOfServer port (brpc_channel a) = ⊥
IsOfServer port (zmq_connect a) = ⊥
IsOfServer port zmq_req = ⊥
IsOfServer port (get_addr_info passive at service) = ⊥
IsOfServer port _ = Unit {0}

-- How often an address is connected to or listened at: a gRPC server listens when it is built and
-- started.
abbrev opens : Call → ℕ
opens (channel a) = 1
opens (local_channel a) = 1
opens (brpc_channel a) = 1
opens (zmq_connect a) = 1
opens build_and_start = 1
opens (start_brpc n) = 1
opens (zmq_bind a) = 1
opens _ = 0

abbrev pub opened : List Call → ℕ
opened [] = 0
opened (c ∷ cs) = opens c + opened cs

-- Every gRPC server is built and started with a listening port.
abbrev pub has_port : Bool → List Call → Bool
has_port b [] = true
has_port b (listening_port a ∷ cs) = has_port true cs
has_port b (build_and_start ∷ cs) = b && has_port b cs
has_port b (_ ∷ cs) = has_port b cs

pub has_port-queues :
    (n : ℕ) (cs : List Call)
    → has_port true cs ≡ true
    → has_port true (replicate n completion_queue ++ cs) ≡ true
has_port-queues zero cs h = h
has_port-queues (suc n) cs h = has_port-queues n cs h

pub opened-append : (xs ys : List Call) → opened (xs ++ ys) ≡ opened xs + opened ys
opened-append [] ys = omega arith
opened-append (c ∷ xs) ys = omega (arith, opened-append xs ys)

pub All-append : (P : Call → Type 0) (xs ys : List Call) → All P xs → All P ys → All P (xs ++ ys)
All-append P [] ys hx hy = hy
All-append P (c ∷ xs) ys (hc, hx) hy = (hc, All-append P xs ys hx hy)

pub All-replicate : (P : Call → Type 0) (c : Call) → P c → (n : ℕ) → All P (replicate n c)
All-replicate P c h zero = tt
All-replicate P c h (suc n) = (h, All-replicate P c h n)

pub opened-queues : (n : ℕ) → opened (replicate n completion_queue) ≡ 0
opened-queues zero = refl
opened-queues (suc n) = omega (arith, opened-queues n)

pub opened-channels : (n : ℕ) (a : String) → opened (replicate n (local_channel a)) ≡ n
opened-channels zero a = refl
opened-channels (suc n) a = omega (arith, opened-channels n a)

-- The addresses that a client opens: one for each thread in the throughput application.
abbrev pub clients_of : {D : Type 0} → CommandOpts D → App → ℕ
clients_of o (client_app grpc_tput) = elim o.thread [ pos n ↦ n | negsuc n ↦ 0 ]
clients_of o _ = 1

-- What an application asks for: a client connects to the host, a server listens.
abbrev pub IsSide : ℕ → List String → App → List Call → Type 0
IsSide port rest (client_app k) calls =
    (host : String) × (rest ≡ host ∷ []) × All (IsOfClient host port) calls
IsSide port rest (server_app k) calls =
    (rest ≡ []) × All (IsOfServer port) calls × (has_port false calls ≡ true)
