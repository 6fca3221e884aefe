-- ===== src/Tests/Requests.antt =====
-- The theorems on PushData over TCP at concrete inputs.
use rpc_bench.Common.{◌≡◌, refl, [], ◌∷◌, ◌++◌, Post, arith}
use rpc_bench.Kernel.Script.{script, script_stream, script_interests}
use rpc_bench.Endpoint.History.{opened, rpc, received, IsSound}
use rpc_bench.Client.{pack, encode_u32, first_part, push_data}
use rpc_bench.Client.Pushing.{
  header_bytes, meta_of, request, request-IsSound, Breaks, Pushed, push_data-Pushed,
}
use rpc_bench.Endpoint.Receive.{decode_u32}
use rpc_bench.Kernel.Script.{World, waits}
use rpc_bench.Endpoint.History.{settled}
use rpc_bench.Bandwidth.Echo.{HeaderLaws, Acked}
use rpc_bench.Bandwidth.RoundTrip.{push_data-Acked}
use rpc_bench.Tests.Data.{socket_5, wire}
use rpc_bench.Tests.Echoes.{plain_header, hello, no_ack}

request-IsSound_example :
    IsSound script script_stream socket_5
      (request plain_header hello)
      (rpc opened (meta_of plain_header hello) (header_bytes plain_header hello) hello.content)
    × ([] ++ request plain_header hello
        ≡ received (
            rpc opened
              (meta_of plain_header hello)
              (header_bytes plain_header hello)
              hello.content))
unfolding pack
request-IsSound_example =
    request-IsSound plain_header script script_stream socket_5 (request plain_header hello) opened
      hello tt (omega arith) (omega arith) (omega arith) (omega arith)

push_data-Pushed_example :
    Post
      (Breaks plain_header script script_stream script_interests socket_5)
      (Pushed plain_header script script_stream script_interests wire socket_5 hello no_ack)
      (push_data plain_header script 40 wire socket_5 hello no_ack)
unfolding pack
push_data-Pushed_example =
    push_data-Pushed plain_header script script_stream script_interests 40 wire socket_5 hello
      no_ack (omega arith) (omega arith)

plain_header-HeaderLaws : HeaderLaws plain_header
plain_header-HeaderLaws = record {
  field1_set1 = λ x pb. refl;
  field1_set2 = λ b pb. refl;
  field1_set3 = λ s pb. refl;
  field2_set2 = λ b pb. refl;
  field2_set3 = λ s pb. refl;
  field3_set3 = λ s pb. refl;
}

-- The reply is late.
abbrev late_reply : World
late_reply = record wire {
  arriving = header_bytes plain_header hello;
  answers = waits ∷ waits ∷ [];
}

push_data-Acked_example :
    Post
      (Breaks plain_header script script_stream script_interests socket_5)
      (λ r. Acked hello no_ack r.0)
      (push_data plain_header script 40 late_reply socket_5 hello no_ack)
unfolding pack encode_u32 first_part decode_u32
push_data-Acked_example =
    push_data-Acked plain_header script script_stream script_interests script script_stream socket_5
      40 late_reply socket_5 hello no_ack []
      (settled
        (rpc opened (meta_of plain_header hello) (header_bytes plain_header hello) hello.content) []
        (tt, refl, refl, refl) refl refl)
      tt plain_header-HeaderLaws (λ pb. refl) (omega arith) (omega arith) (omega arith)
