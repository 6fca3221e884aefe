-- ===== src/Endpoint.antt =====
-- class BwServerEndpoint of src/socket/bw_server_endpoint.{h,cc}: the server's side of one
-- connection. `app_->poll()` is the descriptor `epfd`, and `this` is the number `self`. What is
-- logged is left out, but for the calls that a log line makes with effect.
pub mod Receive
pub mod Send
pub mod Handlers
pub mod Frames
pub mod Interests
pub mod Rounds
pub mod Sending
pub mod Receiving
pub mod HeaderSteps
pub mod DataSteps
pub mod Idle
pub mod Preparing
pub mod Meta
pub mod Rpc
pub mod Delivery
pub mod Arrived
pub mod Spared
pub mod SparedSending
pub mod SparedOwners
pub mod SparedReceiving
pub mod History
pub mod Connection
pub mod Lifetime
pub mod Reach
use rpc_bench.Common.{ℕ, ◌+◌, ◌*◌, ℤ, List, [], ◌∷◌, Option, none, some}
use rpc_bench.Heap.{Heap}
use rpc_bench.Buffer.{Buffer, destroy}
use rpc_bench.Poll.{Interest}
use rpc_bench.Socket.Transfer.{Process}

pub data State : Type 0 where
  new_rpc meta_recved header_recved data_recved replying : State

pub record Endpoint (W : Type 0) : Type 0 where
  pub process : Process W
  pub epfd : ℤ
  pub self : ℕ
  pub sock : ℤ
  pub sock_addr : List ℕ
  pub interest : Interest
  pub tx_queue : List (Option Buffer)
  pub header_buffer_owner : Option Buffer
  pub data_buffer_owner : Option Buffer
  pub header_buffer : Option Buffer
  pub data_buffer : Option Buffer
  pub reply_buffer : Option Buffer
  pub state : State

-- The destructor of a unique_ptr<Buffer>.
unfoldable pub drop_buffer : Heap → Option Buffer → Heap
drop_buffer h none = h
drop_buffer h (some b) = destroy h b

-- The constructor: `interest_` is READABLE | WRITABLE.
unfoldable pub new_endpoint : {W : Type 0} → Process W → ℤ → ℕ → ℤ → Endpoint W
new_endpoint process epfd self new_sock = record {
  process = process;
  epfd = epfd;
  self = self;
  sock = new_sock;
  sock_addr = [];
  interest = record { inner = 3 };
  tx_queue = [];
  header_buffer_owner = none;
  data_buffer_owner = none;
  header_buffer = none;
  data_buffer = none;
  reply_buffer = none;
  state = new_rpc;
}
