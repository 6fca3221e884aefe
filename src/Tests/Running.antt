-- ===== src/Tests/Running.antt =====
-- Run of the server at concrete inputs: one round takes a connection, the next one serves it.
use rpc_bench.Common.{ℕ, pos, List, [], ◌∷◌, Option, none, some, Outcome, done, fatal, fault, hung}
use rpc_bench.Kernel.{EpollEvent, Reply, got, error}
use rpc_bench.Kernel.Hosts.{
  Hosts, hosts, hosts_stream, hosts_interests, hosts_memory, hosts-Apart, hosts-Accepts,
}
use rpc_bench.Endpoint.{Endpoint, new_endpoint}
use rpc_bench.Socket.{AddrInfo}
use rpc_bench.Server.{Server, init, round}
use rpc_bench.Server.Running.{IsServed}
use rpc_bench.Tests.Data.{long_fuel}
use rpc_bench.Tests.Neighbours.{empty_server, inputs, unhurt}

-- EPOLLIN on the listener, then on the connection.
abbrev idle_server : Server Hosts
idle_server = record empty_server {
  process = record empty_server.process {
    world = record empty_server.process.world {
      rounds = (record { events = 1; u64 = 0 } ∷ []) ∷ (record { events = 1; u64 = 8 } ∷ []) ∷ [];
    };
  };
}

abbrev local_address : AddrInfo
local_address = record { ai_family = 2; ai_socktype = 1; ai_protocol = 6; ai_addr = 2 ∷ [] }

abbrev returned : Outcome (Server Hosts) → Server Hosts
returned (done s) = s
returned (fatal cause) = idle_server
returned fault = idle_server
returned hung = idle_server

abbrev started : Server Hosts
started = returned (init hosts idle_server local_address)

abbrev connected : Server Hosts
connected = returned (round hosts long_fuel 16 1000 started)

abbrev Serves : ℕ → Server Hosts → Type 0
Serves =
    IsServed hosts hosts_stream hosts_interests hosts_memory hosts-Apart hosts-Accepts long_fuel
      inputs unhurt 16 1000

abbrev at_object : Option (Endpoint Hosts) → Endpoint Hosts
at_object (some c) = c
at_object none = new_endpoint empty_server.process (pos 4) 0 (pos 5)

abbrev events_of : Reply (List EpollEvent) → List EpollEvent
events_of (got events) = events
events_of (error e) = []
