-- ===== src/Kernel/Hosts.antt =====
-- A kernel with a script for each descriptor, to show that the hypotheses of Kernel/Apart.antt can be
-- met. accept(2) gives the descriptors of a list, and epoll_wait(2) the events of a list of rounds.
use rpc_bench.Common.{
  ◌≡◌, ◌≢◌, ◌<◌, ◌≤◌, refl, sym, ap, ◌∙◌, subst, ℤ, pos, List, [], ◌∷◌, ◌++◌, some, ◌==ℤ◌, ==ℤ_iff,
  if◌then◌else◌, true, Bool-cases, inl, inr, length, replicate, arith,
}
use rpc_bench.Kernel.{Kernel, Reply, got, error, Syscall, accept, EpollEvent}
use rpc_bench.Kernel.Laws.{Stream, InterestList, Memory, bytes_of}
use rpc_bench.Kernel.Apart.{Same, Spares, Apart, Accepts}
use rpc_bench.Kernel.Script
use rpc_bench.Kernel.Script.{script, script_stream, script_interests, memalign_length}

pub record Hosts : Type 0 where
  pub at : ℤ → Script.World
  pub waiting : List ℤ
  pub rounds : List (List EpollEvent)

-- The socket `fd` with a new state.
abbrev pub set : Hosts → ℤ → Script.World → Hosts
set h fd w = record h { at = λ s. if s ==ℤ fd then w else h.at s }

pub set_self : (h : Hosts) (fd : ℤ) (w : Script.World) → (set h fd w).at fd ≡ w
set_self h fd w = let same : (fd ==ℤ fd) ≡ true = (==ℤ_iff fd fd).1 refl in rw same refl

pub set_other : (h : Hosts) (fd s : ℤ) (w : Script.World) → s ≢ fd → (set h fd w).at s ≡ h.at s
set_other h fd s w ne = elim (Bool-cases (s ==ℤ fd)) [
  | inl same ↦ absurd (ne ((==ℤ_iff s fd).0 same))
  | inr apart ↦ rw apart refl
]

-- What the new state of one socket keeps, all sockets keep.
pub set_keeps {ℓ} :
    {A : Type ℓ} (f : Script.World → A) (h : Hosts) (fd : ℤ) (w : Script.World) (s : ℤ)
    → f w ≡ f (h.at fd)
    → f ((set h fd w).at s) ≡ f (h.at s)
set_keeps f h fd w s e = elim (Bool-cases (s ==ℤ fd)) [
  | inl same ↦ rw same (e ∙ ap (λ k. f (h.at k)) (sym ((==ℤ_iff s fd).0 same)))
  | inr apart ↦ rw apart refl
]

abbrev accept_next : List ℤ → Hosts → Reply ℤ × Hosts
accept_next [] h = (error 11, h)
accept_next (new ∷ rest) h =
    (got new, record (set h new (record (h.at new) { departed = [] })) { waiting = rest })

abbrev next_events : List (List EpollEvent) → Hosts → Reply (List EpollEvent) × Hosts
next_events [] h = (got [], h)
next_events (events ∷ rest) h = (got events, record h { rounds = rest })

abbrev call_host : Hosts → Syscall → Reply ℤ × Hosts
call_host h (accept fd) = accept_next h.waiting h
call_host h other = (got (pos 0), h)

abbrev pub hosts : Kernel
hosts = record {
  World = Hosts;
  recv = λ h fd n. let r = script.recv (h.at fd) fd n in (r.0, set h fd r.1);
  send = λ h fd bs. let r = script.send (h.at fd) fd bs in (r.0, set h fd r.1);
  epoll_ctl =
      λ h epfd op fd ev. let r = script.epoll_ctl (h.at fd) epfd op fd ev in (r.0, set h fd r.1);
  epoll_wait = λ h epfd n t. next_events h.rounds h;
  getsockopt = λ h fd name. (got 0, h);
  getpeername = λ h fd. (got (2 ∷ []), h);
  call = call_host;
  memalign = λ h n. some (replicate n 0);
}

abbrev pub hosts_stream : Stream hosts
hosts_stream = record {
  incoming = λ h fd. (h.at fd).arriving;
  sent = λ h fd. (h.at fd).departed;
  patience = λ h fd. length (h.at fd).answers;
  recv_bound = λ h fd n. script_stream.recv_bound (h.at fd) fd n;
  recv_incoming = λ h fd n.
      subst (λ w. (h.at fd).arriving ≡ bytes_of (script.recv (h.at fd) fd n).0 ++ w.arriving)
        (sym (set_self h fd _)) (script_stream.recv_incoming (h.at fd) fd n);
  recv_sent =
      λ h fd n. ap (λ w. w.departed) (set_self h fd _) ∙ script_stream.recv_sent (h.at fd) fd n;
  recv_patience = λ h fd n e q.
      subst (λ w. length w.answers < length (h.at fd).answers) (sym (set_self h fd _))
        (script_stream.recv_patience (h.at fd) fd n e q);
  recv_patience_le = λ h fd n.
      subst (λ w. length w.answers ≤ length (h.at fd).answers) (sym (set_self h fd _))
        (script_stream.recv_patience_le (h.at fd) fd n);
  send_bound = λ h fd bs. script_stream.send_bound (h.at fd) fd bs;
  send_sent =
      λ h fd bs. ap (λ w. w.departed) (set_self h fd _) ∙ script_stream.send_sent (h.at fd) fd bs;
  send_incoming = λ h fd bs.
      ap (λ w. w.arriving) (set_self h fd _) ∙ script_stream.send_incoming (h.at fd) fd bs;
  send_progress = λ h fd bs n. script_stream.send_progress (h.at fd) fd bs n;
  send_patience = λ h fd bs e q.
      subst (λ w. length w.answers < length (h.at fd).answers) (sym (set_self h fd _))
        (script_stream.send_patience (h.at fd) fd bs e q);
  send_patience_le = λ h fd bs.
      subst (λ w. length w.answers ≤ length (h.at fd).answers) (sym (set_self h fd _))
        (script_stream.send_patience_le (h.at fd) fd bs);
  ctl_incoming = λ h epfd op fd ev s.
      set_keeps (λ w. w.arriving) h fd _ s (script_stream.ctl_incoming (h.at fd) epfd op fd ev fd);
  ctl_sent = λ h epfd op fd ev s.
      set_keeps (λ w. w.departed) h fd _ s (script_stream.ctl_sent (h.at fd) epfd op fd ev fd);
  getsockopt_incoming = λ h fd name s. refl;
  getsockopt_sent = λ h fd name s. refl;
  getsockopt_patience_le = λ h fd name. omega arith;
}

abbrev pub hosts_interests : InterestList hosts
hosts_interests = record {
  registered = λ h epfd fd. (h.at fd).registration;
  mod_ok = λ h epfd fd old ev. script_interests.mod_ok (h.at fd) epfd fd old ev;
  mod_registered = λ h epfd fd ev q.
      ap (λ w. w.registration) (set_self h fd _)
      ∙ script_interests.mod_registered (h.at fd) epfd fd ev q;
  add_registered = λ h epfd fd ev q.
      ap (λ w. w.registration) (set_self h fd _)
      ∙ script_interests.add_registered (h.at fd) epfd fd ev q;
  del_registered = λ h epfd fd q.
      ap (λ w. w.registration) (set_self h fd _)
      ∙ script_interests.del_registered (h.at fd) epfd fd q;
  recv_registered = λ h fd n epfd s.
      set_keeps (λ w. w.registration) h fd _ s
        (script_interests.recv_registered (h.at fd) fd n epfd s);
  send_registered = λ h fd bs epfd s.
      set_keeps (λ w. w.registration) h fd _ s
        (script_interests.send_registered (h.at fd) fd bs epfd s);
  getsockopt_registered = λ h fd name epfd s. refl;
}

abbrev pub hosts_memory : Memory hosts
hosts_memory = record { memalign_length = λ h n block. memalign_length n block }

abbrev SameSocket : ℤ → Hosts → Hosts → Type 0
SameSocket = Same hosts hosts_stream hosts_interests

unchanged : (s : ℤ) (h h' : Hosts) → h'.at s ≡ h.at s → SameSocket s h h'
unchanged s h h' e = record {
  incoming_kept = ap (λ w. w.arriving) e;
  sent_kept = ap (λ w. w.departed) e;
  registered_kept = λ epfd. ap (λ w. w.registration) e;
  calmer = omega (arith, ap (λ w. length w.answers) e);
}

pub hosts-Apart : Apart hosts hosts_stream hosts_interests
hosts-Apart = record {
  recv_apart = λ h fd n s ne. unchanged s h _ (set_other h fd s _ ne);
  send_apart = λ h fd bs s ne. unchanged s h _ (set_other h fd s _ ne);
  ctl_apart = λ h epfd op fd ev s ne. unchanged s h _ (set_other h fd s _ ne);
  getsockopt_apart = λ h fd name s ne. unchanged s h h refl;
  close_apart = λ h fd s ne. unchanged s h h refl;
}

pub accept_next-Spares :
    (waiting : List ℤ) (h : Hosts) (new : ℤ)
    → (accept_next waiting h).0 ≡ got new
    → Spares hosts hosts_stream hosts_interests new h (accept_next waiting h).1
accept_next-Spares [] h new e = absurd (cc)
accept_next-Spares (k ∷ rest) h new e =
    let same : k ≡ new = ground (arith, e) in
    λ s ne. unchanged s h _ (set_other h k s _ (λ here. ne (here ∙ same)))

accept_next-unsent :
    (waiting : List ℤ) (h : Hosts) (new : ℤ)
    → (accept_next waiting h).0 ≡ got new
    → ((accept_next waiting h).1.at new).departed ≡ []
accept_next-unsent [] h new e = absurd (cc)
accept_next-unsent (k ∷ rest) h new e =
    let same : new ≡ k = ground (arith, e) in
    ap (λ fd. ((accept_next (k ∷ rest) h).1.at fd).departed) same
    ∙ ap (λ w. w.departed) (set_self h k _)

pub hosts-Accepts : Accepts hosts hosts_stream hosts_interests
hosts-Accepts = record {
  accept_apart = λ h fd new e. accept_next-Spares h.waiting h new e;
  accept_unsent = λ h fd new e. accept_next-unsent h.waiting h new e;
  getpeername_same = λ h fd s. unchanged s h h refl;
  getfl_same = λ h fd s. unchanged s h h refl;
  setfl_same = λ h fd flags s. unchanged s h h refl;
}
