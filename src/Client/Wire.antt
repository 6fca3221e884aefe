-- ===== src/Client/Wire.antt =====
-- What PushData puts on the wire is what the server's endpoint reads.
use rpc_bench.Common.{ℕ, ◌<◌, ◌^◌, ◌≡◌, refl, List, ◌++◌, arith, drop, length}
use rpc_bench.Endpoint.Receive.{decode_u32}
use rpc_bench.Client.{encode_u32, first_part}

pub decode_u32-encode_u32 :
    (n : ℕ) (rest : List ℕ) → n < 2 ^ 32 → decode_u32 (encode_u32 n ++ rest) ≡ n
unfolding decode_u32 encode_u32
decode_u32-encode_u32 n rest lt = omega arith

-- The meta header that the endpoint reads says the sizes of the header and of the data that
-- follow, where these are below 2^32.
pub first_part-Read :
    (header content : List ℕ)
    → length header < 2 ^ 32
    → length content < 2 ^ 32
    → (decode_u32 (first_part header content) ≡ length header)
      × (decode_u32 (drop 4 (first_part header content)) ≡ length content)
      × (drop 8 (first_part header content) ≡ header)
unfolding first_part encode_u32
first_part-Read header content lh lc =
    (decode_u32-encode_u32 (length header) _ lh, decode_u32-encode_u32 (length content) _ lc, refl)
