-- ===== src/Tests/Sockets.antt =====
-- The theorems on the application over ZeroMQ at concrete inputs.
use rpc_bench.Common.{
  ℕ, zero, suc, ◌≤◌, ◌<◌, ◌≡◌, refl, Bool, true, false, List, [], ◌∷◌, ◌++◌, length, Post, arith,
  replicate, length-replicate,
}
use rpc_bench.Kernel.{Reply, got, error}
use rpc_bench.Zeromq.{Zmq, fresh_size, push_data_zero, serve_zero}
use rpc_bench.Zeromq.Laws.{ZmqLaws}
use rpc_bench.Zeromq.Pushing.{Checked, Pushed, push_data_zero-Pushed}
use rpc_bench.Zeromq.Serving.{Replied, serve_zero-Replied}
use rpc_bench.Tests.Echoes.{plain_header, idle_meter, hello, no_ack}

-- A socket that may always send, and that fails `interrupts` times.
pub record SocketWorld : Type 0 where
  pub queued : List (List ℕ × ℕ)
  pub arrived : List (List ℕ × Bool)
  pub interrupts : ℕ
  pub more : Bool

abbrev try_send : ℕ → SocketWorld → List ℕ → ℕ → Reply ℕ × SocketWorld
try_send zero w msg flags =
    (got (length msg), record w { queued = w.queued ++ ((msg, flags) ∷ []) })
try_send (suc n) w msg flags = (error 4, record w { interrupts = n })

abbrev take_part : List (List ℕ × Bool) → SocketWorld → Reply (List ℕ) × SocketWorld
take_part [] w = (error 4, w)
take_part (p ∷ ps) w = (got p.0, record w { arrived = ps; more = p.1 })

abbrev test_socket : Zmq
test_socket = record {
  World = SocketWorld;
  msg_send = λ w msg flags. try_send w.interrupts w msg flags;
  msg_recv = λ w. take_part w.arrived w;
  msg_more = λ w. w.more;
  msg_init = λ w. 0;
  send = λ w msg flags. try_send w.interrupts w msg flags;
  recv = λ w n. (got (0, []), w);
  clock = λ w. 5;
}

sent_got :
    (k : ℕ) (w : SocketWorld) (msg : List ℕ) (flags n : ℕ)
    → w.interrupts ≡ k
    → (try_send k w msg flags).0 ≡ got n
    → (n ≡ length msg)
      × ((try_send k w msg flags).1.queued ≡ w.queued ++ ((msg, flags) ∷ []))
      × ((try_send k w msg flags).1.arrived ≡ w.arrived)
      × ((try_send k w msg flags).1.interrupts ≤ w.interrupts)
sent_got zero w msg flags n k e = (cc, refl, refl, omega arith)
sent_got (suc i) w msg flags n k e = cc

sent_error :
    (k : ℕ) (w : SocketWorld) (msg : List ℕ) (flags e : ℕ)
    → w.interrupts ≡ k
    → (try_send k w msg flags).0 ≡ error e
    → ((try_send k w msg flags).1.queued ≡ w.queued)
      × ((try_send k w msg flags).1.arrived ≡ w.arrived)
      × ((try_send k w msg flags).1.interrupts < w.interrupts)
      × (true ≡ true)
sent_error zero w msg flags e k f = cc
sent_error (suc i) w msg flags e k f = (refl, refl, omega (arith, k), refl)

part_taken :
    (ps : List (List ℕ × Bool)) (w : SocketWorld) (part : List ℕ) (more : Bool)
    (rest : List (List ℕ × Bool))
    → ps ≡ (part, more) ∷ rest
    → ((take_part ps w).0 ≡ got part)
      × ((take_part ps w).1.more ≡ more)
      × ((take_part ps w).1.arrived ≡ rest)
      × ((take_part ps w).1.queued ≡ w.queued)
      × ((take_part ps w).1.interrupts ≤ w.interrupts)
part_taken [] w part more rest e = cc
part_taken (p ∷ ps) w part more rest e = (cc, cc, cc, refl, omega arith)

abbrev test_socket-ZmqLaws : ZmqLaws test_socket
test_socket-ZmqLaws = record {
  outbox = λ w. w.queued;
  inbox = λ w. w.arrived;
  patience = λ w. w.interrupts;
  may_send = λ w. true;
  send_got = λ w msg flags n short may e. sent_got w.interrupts w msg flags n refl e;
  send_more = λ w msg n may e. refl;
  send_error = λ w msg flags e may f. sent_error w.interrupts w msg flags e refl f;
  recv_outbox = λ w n. refl;
  msg_recv_part = λ w part more rest e. part_taken w.arrived w part more rest e;
  last_may_send = λ w part rest e. refl;
  msg_init_ok = λ w. refl;
}

abbrev ready_socket : SocketWorld
ready_socket = record {
  queued = [];
  arrived = (4 ∷ [], true) ∷ ((5 ∷ 6 ∷ [], false) ∷ []);
  interrupts = 2;
  more = false;
}

push_data_zero-Pushed_example :
    Post
      (Checked test_socket plain_header)
      (Pushed test_socket test_socket-ZmqLaws plain_header ready_socket
        (replicate {A = ℕ} 100 0)
        hello
        no_ack)
      (push_data_zero test_socket plain_header 3 ready_socket
        (replicate {A = ℕ} 100 0)
        hello
        no_ack)
unfolding fresh_size
push_data_zero-Pushed_example =
    push_data_zero-Pushed test_socket test_socket-ZmqLaws plain_header 3 ready_socket
      (replicate {A = ℕ} 100 0) hello no_ack (length-replicate {A = ℕ} 100 0) (omega arith)
      (omega arith) refl (omega arith)

serve_zero-Replied_example :
    Post
      (λ cause. ⊥)
      (Replied test_socket test_socket-ZmqLaws plain_header ready_socket idle_meter
        ready_socket.arrived [])
      (serve_zero test_socket plain_header 3 ready_socket idle_meter)
serve_zero-Replied_example =
    serve_zero-Replied test_socket test_socket-ZmqLaws plain_header 3 ready_socket idle_meter
      ready_socket.arrived [] (5 ∷ 6 ∷ []) refl (refl, (refl, refl))
      (omega arith, (omega arith, tt)) refl (omega arith) (omega arith)
