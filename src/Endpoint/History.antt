-- ===== src/Endpoint/History.antt =====
-- The life of a connection as its bytes show it: the RPCs that were answered, in order, and what
-- ReceiveMeta read in vain.
use rpc_bench.Common.{ℕ, ◌<◌, ◌≤◌, ◌≡◌, ℤ, List, [], ◌++◌, max, take, drop, length}
use rpc_bench.Kernel.{Kernel}
use rpc_bench.Kernel.Laws.{Stream}
use rpc_bench.Socket.Growth.{NoMore}
use rpc_bench.Endpoint.Receive.{decode_u32}

-- `cut` is less than a meta header.
pub data History : Type 0 where
  opened : History
  rpc : History → List ℕ → List ℕ → List ℕ → History
  cut : History → List ℕ → History

-- The bytes that came in, and those that went out.
abbrev pub received : History → List ℕ
received opened = []
received (rpc h meta header content) = received h ++ (meta ++ (header ++ content))
received (cut h bits) = received h ++ bits

abbrev pub replied : History → List ℕ
replied opened = []
replied (rpc h meta header content) = replied h ++ header
replied (cut h bits) = replied h

-- The sizes of the owners.
abbrev pub header_room : History → ℕ
header_room opened = 0
header_room (rpc h meta header content) = max (header_room h) (decode_u32 meta)
header_room (cut h bits) = header_room h

abbrev pub data_room : History → ℕ
data_room opened = 0
data_room (rpc h meta header content) = max (data_room h) (decode_u32 (drop 4 meta))
data_room (cut h bits) = data_room h

module _ (K : Kernel) (S : Stream K) where
  open S use {incoming}

  -- Each header and each data is as long as its owner, and bytes are lost only where the stream
  -- ended or failed: the recv that said so had read them, and what it left unread is the rest of
  -- `input`.
  abbrev pub IsSound : ℤ → List ℕ → History → Type 0
  IsSound fd input opened = Unit {0}
  IsSound fd input (rpc h meta header content) =
      IsSound fd input h
      × (length meta ≡ 8)
      × (length header ≡ max (header_room h) (decode_u32 meta))
      × (length content ≡ max (data_room h) (decode_u32 (drop 4 meta)))
  IsSound fd input (cut h bits) =
      IsSound fd input h
      × (length bits < 8)
      × ((w : Kernel.World K) × NoMore K fd 8 bits w
          × (input ≡ (received h ++ bits) ++ incoming w fd))

  -- What a server that answers each RPC with its header may have sent of `input`: the headers of
  -- the RPCs that came in whole, in order, the last perhaps in part.
  pub data Echo (fd : ℤ) (input output : List ℕ) : Type 0 where
    settled :
        (h : History) (rest : List ℕ)
        → IsSound fd input h
        → input ≡ received h ++ rest
        → output ≡ replied h
        → Echo fd input output
    answering :
        (h : History) (meta header content rest : List ℕ) (k : ℕ)
        → IsSound fd input (rpc h meta header content)
        → input ≡ received (rpc h meta header content) ++ rest
        → k ≤ length header
        → output ≡ replied h ++ take k header
        → Echo fd input output
