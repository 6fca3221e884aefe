-- ===== src/Kernel/Script.antt =====
-- A kernel that plays a script, to show that the hypotheses of Kernel/Laws.antt can be met: one
-- connection, whose calls of recv and send are answered by a list of pieces and delays.
use rpc_bench.Common.{
  ℕ, suc, ◌≤◌, ◌<◌, ◌≡◌, refl, sym, ap, pos, List, [], ◌∷◌, ◌++◌, append-nil, Option, none, some,
  min, take, drop, replicate, length, length-take, take_all, length-replicate, take-append-drop,
  arith,
}
use rpc_bench.Kernel.{Kernel, Reply, got, error, CtlOp, ctl_add, ctl_mod, ctl_del, EpollEvent}
use rpc_bench.Kernel.Laws.{Stream, InterestList, Memory, bytes_of, count_of}

-- A call moves at most `n + 1` bytes, or would block. When the script is over, a call moves all.
pub data Answer : Type 0 where
  moves : ℕ → Answer
  waits : Answer

pub record World : Type 0 where
  pub arriving : List ℕ
  pub departed : List ℕ
  pub answers : List Answer
  pub registration : Option EpollEvent

abbrev play_recv : List Answer → World → ℕ → Reply (List ℕ) × World
play_recv [] w n = (got (take n w.arriving), record w { arriving = drop n w.arriving })
play_recv (moves k ∷ rest) w n =
    let m = min (suc k) n in
    (got (take m w.arriving), record w { arriving = drop m w.arriving; answers = rest })
play_recv (waits ∷ rest) w n = (error 11, record w { answers = rest })

abbrev play_send : List Answer → World → List ℕ → Reply ℕ × World
play_send [] w bs = (got (length bs), record w { departed = w.departed ++ bs })
play_send (moves k ∷ rest) w bs =
    let m = min (suc k) (length bs) in
    (got m, record w { departed = w.departed ++ take m bs; answers = rest })
play_send (waits ∷ rest) w bs = (error 11, record w { answers = rest })

abbrev modify : Option EpollEvent → World → Option EpollEvent → Reply (Unit {0}) × World
modify none w ev = (error 2, w)
modify (some old) w ev = (got tt, record w { registration = ev })

abbrev play_ctl : CtlOp → World → Option EpollEvent → Reply (Unit {0}) × World
play_ctl ctl_add w ev = (got tt, record w { registration = ev })
play_ctl ctl_mod w ev = modify w.registration w ev
play_ctl ctl_del w ev = (got tt, record w { registration = none })

abbrev pub script : Kernel
script = record {
  World = World;
  recv = λ w fd n. play_recv w.answers w n;
  send = λ w fd bs. play_send w.answers w bs;
  epoll_ctl = λ w epfd op fd ev. play_ctl op w ev;
  epoll_wait = λ w epfd n t. (got [], w);
  getsockopt = λ w fd name. (got 0, w);
  getpeername = λ w fd. (got (2 ∷ []), w);
  call = λ w s. (got (pos 0), w);
  memalign = λ w n. some (replicate n 0);
}

pub recv_bound :
    (rest : List Answer) (w : World) (n : ℕ) → length (bytes_of (play_recv rest w n).0) ≤ n
recv_bound [] w n = omega (arith, length-take n w.arriving)
recv_bound (moves k ∷ rest) w n = omega (arith, length-take (min (suc k) n) w.arriving)
recv_bound (waits ∷ rest) w n = omega arith

pub recv_incoming :
    (rest : List Answer) (w : World) (n : ℕ)
    → w.arriving ≡ bytes_of (play_recv rest w n).0 ++ (play_recv rest w n).1.arriving
recv_incoming [] w n = sym (take-append-drop n w.arriving)
recv_incoming (moves k ∷ rest) w n = sym (take-append-drop (min (suc k) n) w.arriving)
recv_incoming (waits ∷ rest) w n = refl

pub recv_sent :
    (rest : List Answer) (w : World) (n : ℕ) → (play_recv rest w n).1.departed ≡ w.departed
recv_sent [] w n = refl
recv_sent (moves k ∷ rest) w n = refl
recv_sent (waits ∷ rest) w n = refl

pub recv_registered :
    (rest : List Answer) (w : World) (n : ℕ) → (play_recv rest w n).1.registration ≡ w.registration
recv_registered [] w n = refl
recv_registered (moves k ∷ rest) w n = refl
recv_registered (waits ∷ rest) w n = refl

pub recv_patience :
    (rest : List Answer) (w : World) (n e : ℕ)
    → w.answers ≡ rest
    → (play_recv rest w n).0 ≡ error e
    → length (play_recv rest w n).1.answers < length rest
recv_patience [] w n e q h = cc
recv_patience (moves k ∷ rest) w n e q h = cc
recv_patience (waits ∷ rest) w n e q h = omega arith

pub recv_patience_le :
    (rest : List Answer) (w : World) (n : ℕ)
    → w.answers ≡ rest
    → length (play_recv rest w n).1.answers ≤ length rest
recv_patience_le [] w n q = omega (arith, ap length q)
recv_patience_le (moves k ∷ rest) w n q = omega arith
recv_patience_le (waits ∷ rest) w n q = omega arith

pub send_bound :
    (rest : List Answer) (w : World) (bs : List ℕ) → count_of (play_send rest w bs).0 ≤ length bs
send_bound [] w bs = omega arith
send_bound (moves k ∷ rest) w bs = omega arith
send_bound (waits ∷ rest) w bs = omega arith

pub send_sent :
    (rest : List Answer) (w : World) (bs : List ℕ)
    → (play_send rest w bs).1.departed ≡ w.departed ++ take (count_of (play_send rest w bs).0) bs
send_sent [] w bs = ap (◌++◌ w.departed) (sym (take_all (length bs) bs (omega arith)))
send_sent (moves k ∷ rest) w bs = refl
send_sent (waits ∷ rest) w bs = sym (append-nil w.departed)

pub send_incoming :
    (rest : List Answer) (w : World) (bs : List ℕ) → (play_send rest w bs).1.arriving ≡ w.arriving
send_incoming [] w bs = refl
send_incoming (moves k ∷ rest) w bs = refl
send_incoming (waits ∷ rest) w bs = refl

pub send_registered :
    (rest : List Answer) (w : World) (bs : List ℕ)
    → (play_send rest w bs).1.registration ≡ w.registration
send_registered [] w bs = refl
send_registered (moves k ∷ rest) w bs = refl
send_registered (waits ∷ rest) w bs = refl

pub send_progress :
    (rest : List Answer) (w : World) (bs : List ℕ) (n : ℕ)
    → 0 < length bs
    → (play_send rest w bs).0 ≡ got n
    → 0 < n
send_progress [] w bs n h e = omega (arith, ap count_of e)
send_progress (moves k ∷ rest) w bs n h e = omega (arith, ap count_of e)
send_progress (waits ∷ rest) w bs n h e = cc

pub send_patience :
    (rest : List Answer) (w : World) (bs : List ℕ) (e : ℕ)
    → w.answers ≡ rest
    → (play_send rest w bs).0 ≡ error e
    → length (play_send rest w bs).1.answers < length rest
send_patience [] w bs e q h = cc
send_patience (moves k ∷ rest) w bs e q h = cc
send_patience (waits ∷ rest) w bs e q h = omega arith

pub send_patience_le :
    (rest : List Answer) (w : World) (bs : List ℕ)
    → w.answers ≡ rest
    → length (play_send rest w bs).1.answers ≤ length rest
send_patience_le [] w bs q = omega (arith, ap length q)
send_patience_le (moves k ∷ rest) w bs q = omega arith
send_patience_le (waits ∷ rest) w bs q = omega arith

pub ctl_keeps {ℓ} :
    {A : Type ℓ} (f : World → A)
    (f_lem : (w : World) (r : Option EpollEvent) → f (record w { registration = r }) ≡ f w)
    (op : CtlOp) (w : World) (ev : Option EpollEvent)
    → f (play_ctl op w ev).1 ≡ f w
ctl_keeps f f_lem ctl_add w ev = f_lem w ev
ctl_keeps f f_lem ctl_mod w ev = modified w.registration
  where
    modified : (r : Option EpollEvent) → f (modify r w ev).1 ≡ f w
    modified none = refl
    modified (some old) = f_lem w ev
ctl_keeps f f_lem ctl_del w ev = f_lem w none

abbrev pub script_stream : Stream script
script_stream = record {
  incoming = λ w fd. w.arriving;
  sent = λ w fd. w.departed;
  patience = λ w fd. length w.answers;
  recv_bound = λ w fd n. recv_bound w.answers w n;
  recv_incoming = λ w fd n. recv_incoming w.answers w n;
  recv_sent = λ w fd n. recv_sent w.answers w n;
  recv_patience = λ w fd n e h. recv_patience w.answers w n e refl h;
  recv_patience_le = λ w fd n. recv_patience_le w.answers w n refl;
  send_bound = λ w fd bs. send_bound w.answers w bs;
  send_sent = λ w fd bs. send_sent w.answers w bs;
  send_incoming = λ w fd bs. send_incoming w.answers w bs;
  send_progress = λ w fd bs n. send_progress w.answers w bs n;
  send_patience = λ w fd bs e h. send_patience w.answers w bs e refl h;
  send_patience_le = λ w fd bs. send_patience_le w.answers w bs refl;
  ctl_incoming = λ w epfd op fd ev s. ctl_keeps (λ v. v.arriving) (λ v r. refl) op w ev;
  ctl_sent = λ w epfd op fd ev s. ctl_keeps (λ v. v.departed) (λ v r. refl) op w ev;
  getsockopt_incoming = λ w fd name s. refl;
  getsockopt_sent = λ w fd name s. refl;
  getsockopt_patience_le = λ w fd name. omega arith;
}

pub modify_ok :
    (r : Option EpollEvent) (w : World) (old ev : EpollEvent)
    → r ≡ some old
    → (modify r w (some ev)).0 ≡ got tt
modify_ok none w old ev e = cc
modify_ok (some x) w old ev e = refl

pub modify_registered :
    (r : Option EpollEvent) (w : World) (ev : EpollEvent)
    → (modify r w (some ev)).0 ≡ got tt
    → (modify r w (some ev)).1.registration ≡ some ev
modify_registered none w ev e = cc
modify_registered (some x) w ev e = refl

abbrev pub script_interests : InterestList script
script_interests = record {
  registered = λ w epfd fd. w.registration;
  mod_ok = λ w epfd fd old ev. modify_ok w.registration w old ev;
  mod_registered = λ w epfd fd ev. modify_registered w.registration w ev;
  add_registered = λ w epfd fd ev h. refl;
  del_registered = λ w epfd fd h. refl;
  recv_registered = λ w fd n epfd s. recv_registered w.answers w n;
  send_registered = λ w fd bs epfd s. send_registered w.answers w bs;
  getsockopt_registered = λ w fd name epfd s. refl;
}

abbrev content_length : Option (List ℕ) → ℕ
content_length none = 0
content_length (some b) = length b

pub memalign_length :
    (n : ℕ) (block : List ℕ) → some (replicate n 0) ≡ some block → length block ≡ n
memalign_length n block e = omega (arith, ap content_length e, length-replicate {A = ℕ} n 0)

abbrev pub script_memory : Memory script
script_memory = record { memalign_length = λ w n block. memalign_length n block }
