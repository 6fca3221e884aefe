-- ===== src/App.antt =====
-- App::Create of src/app.cc, and the start of main in src/rpc_bench.cc. An App is known by its class.
pub mod Choice
use rpc_bench.Common.{
  Bool, true, false, Option, none, some, Outcome, done, fatal, check, unimplemented, log_fatal,
  ◌>>=◌, deref, if◌then◌else◌,
}
use rpc_bench.Options.{CommandOpts}
use Prim.Native.String.{String}
use text.Mathlib.Text.{◌==◌}

-- The classes of each kind, for the server and for the client.
pub data Kind : Type 0 where
  grpc_bw socket_bw brpc_bw zeromq_bw grpc_lat grpc_tput hotel_reservation : Kind

pub data App : Type 0 where
  server_app client_app : Kind → App

-- opts.x.value() after CHECK(opts.x.has_value()).
abbrev checked : Option String → Outcome String
checked none = fatal check
checked (some s) = done s

-- opts.is_server.value() ? new Server(opts) : new Client(opts); an empty optional throws.
abbrev choose : Option Bool → Kind → Outcome (Option App)
choose server kind = do
  b ← deref server
  done (some (if b then server_app kind else client_app kind))

-- NULL is `none`.
unfoldable pub create_named : Option Bool → String → String → Outcome (Option App)
create_named server app rpc =
    if app == "bandwidth"
    then (if rpc == "grpc"
        then choose server grpc_bw
        else if rpc == "socket"
        then choose server socket_bw
        else if rpc == "brpc"
        then choose server brpc_bw
        else if rpc == "zeromq"
        then choose server zeromq_bw
        else done none)
    else if app == "latency"
    then (if rpc == "grpc" then choose server grpc_lat else fatal unimplemented)
    else if app == "throughput"
    then (if rpc == "grpc" then choose server grpc_tput else fatal unimplemented)
    else if app == "hotel_reservation"
    then (if rpc == "grpc" then choose server hotel_reservation else fatal unimplemented)
    else fatal log_fatal

unfoldable pub create : {D : Type 0} → CommandOpts D → Outcome (Option App)
unfolding create_named
create opts = do app ← checked opts.app; rpc ← checked opts.rpc; create_named opts.is_server app rpc
