-- ===== src/SocketLat.antt =====
-- The latency application over TCP, src/socket/socket_lat_app.{h,cc}, which connects or listens and
-- measures nothing. Run of the server ends without a value, and is left out.
use rpc_bench.Common.{ℕ, ℤ, true, Outcome, done, ◌>>=◌}
use rpc_bench.Kernel.{Kernel}
use rpc_bench.Socket.{
  AddrInfo, create, connect_socket, set_non_block, set_reuse_addr, bind_socket, listen_socket,
}

module _ (K : Kernel) where
  open K use {World}

  -- The client: connect is tried once, and its answer is not looked at.
  unfoldable pub init_client : World → AddrInfo → Outcome (ℤ × World)
  init_client w ai = do
    created ← create K w ai
    let connected = connect_socket K created.1 created.0 ai
    w' ← set_non_block K connected.1 created.0 true
    done (created.0, w')

  unfoldable pub run_client : ℕ
  run_client = 0

  unfoldable pub init_server : World → AddrInfo → Outcome (ℤ × World)
  init_server w ai = do
    created ← create K w ai
    w₁ ← set_reuse_addr K created.1 created.0 true
    w₂ ← set_non_block K w₁ created.0 true
    w₃ ← bind_socket K w₂ created.0 ai
    w₄ ← listen_socket K w₃ created.0 128
    done (created.0, w₄)
