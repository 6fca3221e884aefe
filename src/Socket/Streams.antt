-- ===== src/Socket/Streams.antt =====
-- RecvAll and SendAll over a stream whose calls are answered in any pieces.
use rpc_bench.Common.{
  ℕ, zero, suc, ◌+◌, ◌-◌, ◌≤◌, ◌<◌, ◌≡◌, refl, sym, ap, ◌∙◌, ℤ, false, List, ◌++◌, append_assoc,
  take, drop, length, nil_of_length, subst, length-append, length-drop, take_add, done, ◌>>=◌, ltb,
  ◌==◌, Post, arith, Bool-cases, inl, inr, ◌⊎◌,
}
use rpc_bench.Kernel.{Kernel, got, error}
use rpc_bench.Kernel.Laws.{would_block, bytes_of, count_of, Stream, InterestList, Reply-cases}
use rpc_bench.Socket.{get_sock_error}
use rpc_bench.Socket.Transfer.{recv_all, send_all}
use rpc_bench.Socket.Growth.{
  Unread, no_sock_error, at_end, GrownTo, sock_error-Grown, Grown-Post, recv-Grown, recv-Grown_none,
}

module _ (K : Kernel) (S : Stream K) (L : InterestList K) where
  open K use {World, recv, send, getsockopt}
  open S use {
    incoming, sent, patience, recv_bound, recv_incoming, recv_sent, recv_patience, recv_patience_le,
    send_bound, send_sent, send_incoming, send_progress, send_patience, send_patience_le,
    getsockopt_incoming, getsockopt_sent, getsockopt_patience_le,
  }
  open L use {registered, recv_registered, send_registered, getsockopt_registered}

  -- With room in the buffer and fuel above the bytes wanted and the delays to come, RecvAll
  -- returns: the buffer has grown by the next bytes of the stream, in order and none lost, to `len`
  -- bytes, or to fewer where the last recv came to the end of the stream or failed for good, and
  -- nothing was sent. It aborts only where getsockopt fails.
  pub recv_all-Grown :
      (fuel : ℕ) (w : World) (fd : ℤ) (len : ℕ) (cbuf : List ℕ)
      → length cbuf ≤ len
      → (len - length cbuf) + patience w fd < fuel
      → Post (Unread K) (GrownTo K S L w fd len cbuf) (recv_all K fuel w fd len cbuf)
  unfolding recv_all
  recv_all-Grown zero w fd len cbuf fits enough = absurd (omega arith)
  recv_all-Grown (suc fuel) w fd len cbuf fits enough = elim (Bool-cases (ltb (length cbuf) len)) [
    | inr full ↦
        rw (full, recv_all)
          (
            record {
              stream = refl;
              room = fits;
              grows = omega arith;
              unsent = refl;
              known = λ epfd s. refl;
            },
            inl (ground arith),
          )
    | inl more ↦
        rw (more, recv_all)
          (elim (Reply-cases (recv w fd (len - length cbuf)).0) [
            | inl (bytes, e) ↦
                rw (e, recv_all)
                  (elim (Bool-cases (length bytes == 0)) [
                    | inl eof ↦
                        let none_came = nil_of_length bytes (ground arith) in
                        rw (eof, recv_all)
                          (
                            recv-Grown_none K S L w fd len cbuf fits (ap bytes_of e ∙ none_came),
                            inr (
                                at_end w (
                                  ap (λ r. (r, (recv w fd (len - length cbuf)).1))
                                    (e ∙ ap got none_came))),
                          )
                    | inr more_bytes ↦
                        let g = recv-Grown K S L w fd len cbuf bytes fits (ap bytes_of e) in
                        rw (more_bytes, recv_all)
                          (Grown-Post K S L w _ fd len cbuf (cbuf ++ bytes) _ g (
                            recv_all-Grown fuel _ fd len (cbuf ++ bytes) g.room (
                              ground (
                                arith,
                                length-append cbuf bytes,
                                recv_patience_le w fd (len - length cbuf),
                              ))))
                  ])
            | inr (errno, e) ↦
                rw (e, recv_all)
                  (elim (Bool-cases (would_block errno)) [
                    | inl again ↦
                        rw (again, recv_all)
                          (Grown-Post K S L w _ fd len cbuf cbuf _
                            (recv-Grown_none K S L w fd len cbuf fits (ap bytes_of e))
                            (recv_all-Grown fuel _ fd len cbuf fits
                              (omega (arith, recv_patience w fd (len - length cbuf) errno e))))
                    | inr hard ↦
                        rw (hard, recv_all)
                          (sock_error-Grown K S L w _ w fd len cbuf errno
                            (recv-Grown_none K S L w fd len cbuf fits (ap bytes_of e))
                            (ap (λ r. (r, (recv w fd (len - length cbuf)).1)) e) hard)
                  ])
          ])
  ]

  -- The first `n` bytes of `buf` were accepted since `w₀`, and nothing was received.
  pub record Accepted (w₀ : World) (fd : ℤ) (buf : List ℕ) (n : ℕ) (w : World) : Type 0 where
    pub out : sent w fd ≡ sent w₀ fd ++ take n buf
    pub within : n ≤ length buf
    pub unread : incoming w fd ≡ incoming w₀ fd
    pub calmer : patience w fd ≤ patience w₀ fd

  -- A call of send for the rest of `buf` that failed for good.
  abbrev pub HardError : ℤ → List ℕ → ℕ → Type 0
  HardError fd buf n =
      (w : World) × (e : ℕ) × ((send w fd (drop n buf)).0 ≡ error e) × (would_block e ≡ false)

  abbrev pub AllAccepted : World → ℤ → List ℕ → ℕ × World → Type 0
  AllAccepted w₀ fd buf (n, w) = Accepted w₀ fd buf n w × ((n ≡ length buf) ⊎ HardError fd buf n)

  send-Accepted :
      (w₀ w : World) (fd : ℤ) (buf : List ℕ) (n r : ℕ)
      → Accepted w₀ fd buf n w
      → count_of (send w fd (drop n buf)).0 ≡ r
      → Accepted w₀ fd buf (n + r) (send w fd (drop n buf)).1
  send-Accepted w₀ w fd buf n r a e =
      let rest = drop n buf in
      record {
        out =
            send_sent w fd rest
            ∙ ap (λ k. sent w fd ++ take k rest) e
            ∙ ap (λ bs. bs ++ take r rest) a.out
            ∙ append_assoc (sent w₀ fd) (take n buf) (take r rest)
            ∙ ap (◌++◌ (sent w₀ fd)) (sym (take_add n r buf));
        within = omega (arith, send_bound w fd rest, length-drop n buf, a.within, e);
        unread = send_incoming w fd rest ∙ a.unread;
        calmer = omega (arith, send_patience_le w fd rest, a.calmer);
      }

  send-Accepted_none :
      (w₀ w : World) (fd : ℤ) (buf : List ℕ) (n : ℕ)
      → Accepted w₀ fd buf n w
      → count_of (send w fd (drop n buf)).0 ≡ 0
      → Accepted w₀ fd buf n (send w fd (drop n buf)).1
  send-Accepted_none w₀ w fd buf n a e =
      subst (λ k. Accepted w₀ fd buf k (send w fd (drop n buf)).1) (omega arith)
        (send-Accepted w₀ w fd buf n 0 a e)

  sock_error-Accepted :
      (w₀ w : World) (fd : ℤ) (buf : List ℕ) (n : ℕ)
      → Accepted w₀ fd buf n w
      → HardError fd buf n
      → Post (Unread K) (AllAccepted w₀ fd buf) (get_sock_error K w fd >>= λ code. done (n, code.1))
  unfolding get_sock_error
  sock_error-Accepted w₀ w fd buf n a hard = elim (Reply-cases (getsockopt w fd 4).0) [
    | inl (code, e) ↦
        rw (e, get_sock_error)
          (
            record {
              out = getsockopt_sent w fd 4 fd ∙ a.out;
              within = a.within;
              unread = getsockopt_incoming w fd 4 fd ∙ a.unread;
              calmer = omega (arith, getsockopt_patience_le w fd 4, a.calmer);
            },
            inr hard,
          )
    | inr (errno, e) ↦ rw (e, get_sock_error) (no_sock_error _ fd errno e)
  ]

  -- With fuel above the bytes left and the delays to come, SendAll returns: the bytes accepted are
  -- a prefix of `buf`, in order, and all of `buf` unless a call of send failed for good. It aborts
  -- only where getsockopt fails.
  pub send_all-AllAccepted :
      (fuel : ℕ) (w₀ w : World) (fd : ℤ) (buf : List ℕ) (n : ℕ)
      → Accepted w₀ fd buf n w
      → (length buf - n) + patience w fd < fuel
      → Post (Unread K) (AllAccepted w₀ fd buf) (send_all K fuel w fd buf n)
  unfolding send_all
  send_all-AllAccepted zero w₀ w fd buf n a enough = absurd (omega arith)
  send_all-AllAccepted (suc fuel) w₀ w fd buf n a enough = elim (Bool-cases (ltb n (length buf))) [
    | inr full ↦ rw (full, send_all) (a, inl (ground (arith, a.within)))
    | inl more ↦
        rw (more, send_all)
          (elim (Reply-cases (send w fd (drop n buf)).0) [
            | inl (r, e) ↦
                rw (e, send_all)
                  (send_all-AllAccepted fuel w₀ _ fd buf (n + r)
                    (send-Accepted w₀ w fd buf n r a (ap count_of e))
                    (ground (
                      arith,
                      send_progress w fd (drop n buf) r,
                      length-drop n buf,
                      send_patience_le w fd (drop n buf),
                    )))
            | inr (errno, e) ↦
                rw (e, send_all)
                  (elim (Bool-cases (would_block errno)) [
                    | inl again ↦
                        rw (again, send_all)
                          (send_all-AllAccepted fuel w₀ _ fd buf n
                            (send-Accepted_none w₀ w fd buf n a (ap count_of e))
                            (omega (arith, send_patience w fd (drop n buf) errno e)))
                    | inr hard ↦
                        rw (hard, send_all)
                          (sock_error-Accepted w₀ _ fd buf n
                            (send-Accepted_none w₀ w fd buf n a (ap count_of e))
                            (w, errno, e, hard))
                  ])
          ])
  ]
