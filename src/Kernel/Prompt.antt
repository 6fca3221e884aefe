-- ===== src/Kernel/Prompt.antt =====
-- A kernel on which every byte has arrived: a call of recv gets all that it asks for while there
-- are bytes, and send goes on as the script of Kernel/Script.antt says.
use rpc_bench.Common.{ℕ, ◌≡◌, sym, take, drop, take-append-drop, length-take, refl, arith, length}
use rpc_bench.Kernel.{Kernel, got, error}
use rpc_bench.Kernel.Laws.{Stream, InterestList, Memory}
use rpc_bench.Kernel.Script.{
  World, script, send_bound, send_sent, send_incoming, send_progress, send_patience,
  send_patience_le, send_registered, ctl_keeps, modify_ok, modify_registered, memalign_length,
}

abbrev pub prompt : Kernel
prompt = record script {
  recv = λ w fd n. (got (take n w.arriving), record w { arriving = drop n w.arriving });
}

pub got-not_error : (w : World) (n e : ℕ) → ¬ (got (take n w.arriving) ≡ error e)
got-not_error w n e h = cc

abbrev pub prompt_stream : Stream prompt
prompt_stream = record {
  incoming = λ w fd. w.arriving;
  sent = λ w fd. w.departed;
  patience = λ w fd. length w.answers;
  recv_bound = λ w fd n. omega (arith, length-take n w.arriving);
  recv_incoming = λ w fd n. sym (take-append-drop n w.arriving);
  recv_sent = λ w fd n. refl;
  recv_patience = λ w fd n e h. absurd (got-not_error w n e h);
  recv_patience_le = λ w fd n. omega arith;
  send_bound = λ w fd bs. send_bound w.answers w bs;
  send_sent = λ w fd bs. send_sent w.answers w bs;
  send_incoming = λ w fd bs. send_incoming w.answers w bs;
  send_progress = λ w fd bs n. send_progress w.answers w bs n;
  send_patience = λ w fd bs e h. send_patience w.answers w bs e refl h;
  send_patience_le = λ w fd bs. send_patience_le w.answers w bs refl;
  ctl_incoming = λ w epfd op fd ev s. ctl_keeps (λ v. v.arriving) (λ v r. refl) op w ev;
  ctl_sent = λ w epfd op fd ev s. ctl_keeps (λ v. v.departed) (λ v r. refl) op w ev;
  getsockopt_incoming = λ w fd name s. refl;
  getsockopt_sent = λ w fd name s. refl;
  getsockopt_patience_le = λ w fd name. omega arith;
}

abbrev pub prompt_interests : InterestList prompt
prompt_interests = record {
  registered = λ w epfd fd. w.registration;
  mod_ok = λ w epfd fd old ev. modify_ok w.registration w old ev;
  mod_registered = λ w epfd fd ev. modify_registered w.registration w ev;
  add_registered = λ w epfd fd ev h. refl;
  del_registered = λ w epfd fd h. refl;
  recv_registered = λ w fd n epfd s. refl;
  send_registered = λ w fd bs epfd s. send_registered w.answers w bs;
  getsockopt_registered = λ w fd name epfd s. refl;
}

abbrev pub prompt_memory : Memory prompt
prompt_memory = record { memalign_length = λ w n block. memalign_length n block }
