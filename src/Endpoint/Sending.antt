-- ===== src/Endpoint/Sending.antt =====
-- The reply of an RPC goes out in any pieces.
use rpc_bench.Common.{
  ℕ, zero, suc, ◌+◌, ◌-◌, ◌≤◌, ◌≡◌, inl, inr, List, [], Bool, true, false, length, done, Post,
  Post-bind, arith,
}
use rpc_bench.Kernel.{Kernel}
use rpc_bench.Kernel.Laws.{Stream, InterestList}
use rpc_bench.Socket.Growth.{Aborts}
use rpc_bench.Endpoint.{Endpoint}
use rpc_bench.Endpoint.Send.{on_send_ready}
use rpc_bench.Endpoint.Frames.{Exchange, AtReply, Answered}
use rpc_bench.Endpoint.Rounds.{Round, send_front-Round}

module _ (K : Kernel) (S : Stream K) (L : InterestList K) where
  open K use {World, send, epoll_ctl}
  open S use {
    incoming, sent, send_bound, send_sent, send_incoming, send_progress, ctl_incoming, ctl_sent,
  }
  open L use {registered, mod_ok, mod_registered, send_registered}

  pub on_send_ready-done :
      (fuel : ℕ) (c : Endpoint World) → c.tx_queue ≡ [] → 1 ≤ fuel → on_send_ready K fuel c ≡ done c
  unfolding on_send_ready
  on_send_ready-done zero c e pos = absurd (omega arith)
  on_send_ready-done (suc fuel) c e pos = simp (e, on_send_ready)

  again-Answered :
      (g : Exchange) (hb db : List ℕ) (k fuel : ℕ)
      → (length hb - k) + 2 ≤ suc fuel
      → ((m : ℕ) (c : Endpoint World)
          → AtReply K S L g hb db m c
          → m ≤ length hb
          → (length hb - m) + 2 ≤ fuel
          → Post (Aborts K) (Answered K S L g hb db) (on_send_ready K fuel c))
      → (r : Bool × Endpoint World) → Round K S L g hb db k r
      → k ≤ length hb
      → Post
          (Aborts K)
          (Answered K S L g hb db)
          (elim r.0 [ true ↦ on_send_ready K fuel r.1 | false ↦ done r.1 ])
  again-Answered g hb db k fuel enough again (false, c) (a, armed) fits = inr (k, fits, a, armed)
  again-Answered g hb db k fuel enough again (true, c) (inl f) fits =
      rw (on_send_ready-done fuel c f.queue (omega arith)) (inl f)
  again-Answered g hb db k fuel enough again (true, c) (inr (m, lt, less, a)) fits =
      again m c a (omega arith) (omega arith)

  -- With fuel for the bytes left and two rounds more, OnSendReady on a reply of which `k` bytes
  -- are out returns, unless the socket fails: the whole header was sent behind what had been sent
  -- before and the endpoint is ready for the next RPC, or what was sent is a prefix of it, the
  -- rest is still queued, and the socket is registered for EPOLLOUT.
  pub on_send_ready-Answered :
      (fuel : ℕ) (g : Exchange) (hb db : List ℕ) (k : ℕ) (c : Endpoint World)
      → AtReply K S L g hb db k c
      → k ≤ length hb
      → (length hb - k) + 2 ≤ fuel
      → Post (Aborts K) (Answered K S L g hb db) (on_send_ready K fuel c)
  unfolding on_send_ready
  on_send_ready-Answered zero g hb db k c d fits enough = absurd (omega arith)
  on_send_ready-Answered (suc fuel) g hb db k c d fits enough =
      rw (d.queue, on_send_ready)
        (Post-bind (Aborts K) (Round K S L g hb db k) (Answered K S L g hb db) _ _
          (send_front-Round K S L g hb db k c d fits)
          (λ r h.
            again-Answered g hb db k fuel enough
              (λ m c' a le room. on_send_ready-Answered fuel g hb db m c' a le room) r h fits))
