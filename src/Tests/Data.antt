-- ===== src/Tests/Data.antt =====
-- Test data: a connection on descriptor 5, on which one RPC arrives.
use rpc_bench.Common.{ℕ, ℤ, pos, List, [], ◌∷◌, Option, none, some}
use rpc_bench.Kernel.Script.{World, moves, waits, script}
use rpc_bench.Poll.Selector.{event_of}
use rpc_bench.Endpoint.{Endpoint, new_rpc}

abbrev pub socket_5 : ℤ
socket_5 = pos 5

-- One byte of header, two bytes of data.
abbrev pub frame : List ℕ
frame = 1 ∷ 0 ∷ 0 ∷ 0 ∷ 2 ∷ 0 ∷ 0 ∷ 0 ∷ 9 ∷ 5 ∷ 6 ∷ []

abbrev pub no_blocks : ℕ → Option (List ℕ)
no_blocks n = none

-- The meta header comes in two pieces, with a delay between them.
abbrev pub wire : World
wire = record {
  arriving = frame;
  departed = [];
  answers = moves 2 ∷ waits ∷ [];
  registration = some (event_of script 7 (record { inner = 3 }));
}

abbrev pub waiting_endpoint : Endpoint World
waiting_endpoint = record {
  process = record { heap = record { blocks = no_blocks; fresh = 0 }; world = wire };
  epfd = pos 4;
  self = 7;
  sock = socket_5;
  sock_addr = [];
  interest = record { inner = 3 };
  tx_queue = [];
  header_buffer_owner = none;
  data_buffer_owner = none;
  header_buffer = none;
  data_buffer = none;
  reply_buffer = none;
  state = new_rpc;
}

-- 2^32 + 2.
abbrev pub long_fuel : ℕ
long_fuel = 4_294_967_298
