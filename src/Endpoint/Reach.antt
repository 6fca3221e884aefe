-- ===== src/Endpoint/Reach.antt =====
-- Every state that a connection can reach.
use rpc_bench.Common.{
  ℕ, ◌≡◌, ℤ, List, [], Bytes, Outcome, done, fatal, fault, hung, Post, subst, refl, sym,
}
use rpc_bench.Kernel.{Kernel}
use rpc_bench.Kernel.Laws.{Stream, InterestList, Memory}
use rpc_bench.Socket.Transfer.{Process}
use rpc_bench.Socket.Growth.{Aborts}
use rpc_bench.Endpoint.{Endpoint}
use rpc_bench.Endpoint.Send.{on_send_ready}
use rpc_bench.Endpoint.Receive.{on_recv_ready}
use rpc_bench.Endpoint.Idle.{Idle}
use rpc_bench.Endpoint.History.{opened, Echo}
use rpc_bench.Endpoint.Connection.{Conn, at_rest, Conn-Echo}
use rpc_bench.Endpoint.Lifetime.{
  IsEnough, IsUntouched, with_process, on_recv_ready-Conn, on_send_ready-Conn, kept-Conn,
}

module _ (K : Kernel) (S : Stream K) (L : InterestList K) (M : Memory K) where
  open K use {World}
  open S use {incoming, sent}

  -- A handler that returns, with fuel for it, or what others do.
  pub data Step (c : Endpoint World) : Endpoint World → Type 0 where
    recv_ready :
        (fuel : ℕ) (c' : Endpoint World)
        → IsEnough K S L M c fuel
        → on_recv_ready K fuel c ≡ done c'
        → Step c c'
    send_ready :
        (fuel : ℕ) (c' : Endpoint World)
        → IsEnough K S L M c fuel
        → on_send_ready K fuel c ≡ done c'
        → Step c c'
    meanwhile : (p : Process World) → IsUntouched K S L M c p → Step c (with_process K S L M c p)

  pub data Reach (c₀ : Endpoint World) : Endpoint World → Type 0 where
    start : Reach c₀ c₀
    after : (c c' : Endpoint World) → Reach c₀ c → Step c c' → Reach c₀ c'

  Step-Conn :
      (fd : ℤ) (input : List ℕ) (c c' : Endpoint World)
      → Bytes input
      → Step c c'
      → Conn K S L fd input c
      → Conn K S L fd input c'
  Step-Conn fd input c c' bytes (recv_ready fuel c'' enough e) i =
      subst (Post (Aborts K) (Conn K S L fd input)) e
        (on_recv_ready-Conn K S L M fuel fd input c i bytes enough)
  Step-Conn fd input c c' bytes (send_ready fuel c'' enough e) i =
      subst (Post (Aborts K) (Conn K S L fd input)) e
        (on_send_ready-Conn K S L M fuel fd input c i enough.long)
  Step-Conn fd input c c' bytes (meanwhile p u) i = kept-Conn K S L M fd input c p u i

  Reach-Conn :
      (fd : ℤ) (input : List ℕ) (c₀ c : Endpoint World)
      → Bytes input
      → Conn K S L fd input c₀
      → Reach c₀ c
      → Conn K S L fd input c
  Reach-Conn fd input c₀ c bytes i start = i
  Reach-Conn fd input c₀ c bytes i (after c₁ c' r s) =
      Step-Conn fd input c₁ c' bytes s (Reach-Conn fd input c₀ c₁ bytes i r)

  -- On a connection that begins idle with no owners and nothing sent, after any sequence of
  -- handlers that returned and of what others do, neither OnRecvReady nor OnSendReady, with enough
  -- fuel, loops for ever or touches memory outside a live block: it returns and the sequence goes
  -- on, or aborts, and then a recv or a send failed for more than a wait, SO_ERROR could not be
  -- read, or memory was short.
  pub Reach-Total :
      (fuel : ℕ) (fd : ℤ) (input : List ℕ) (c₀ c : Endpoint World)
      → Idle K S L fd 0 0 c₀
      → incoming c₀.process.world c₀.sock ≡ input
      → sent c₀.process.world c₀.sock ≡ []
      → Bytes input
      → Reach c₀ c
      → IsEnough K S L M c fuel
      → Post (Aborts K) (Reach c₀) (on_recv_ready K fuel c)
        × Post (Aborts K) (Reach c₀) (on_send_ready K fuel c)
  Reach-Total fuel fd input c₀ c idle inp out bytes r enough =
      let i = Reach-Conn fd input c₀ c bytes (at_rest opened tt idle (sym inp) out) r in
      (
        returned (on_recv_ready K fuel c)
            (on_recv_ready-Conn K S L M fuel fd input c i bytes enough)
            (λ c' e. after c c' r (recv_ready fuel c' enough e)),
        returned (on_send_ready K fuel c) (on_send_ready-Conn K S L M fuel fd input c i enough.long)
            (λ c' e. after c c' r (send_ready fuel c' enough e)),
      )
    where
      returned :
          (m : Outcome (Endpoint World))
          → Post (Aborts K) (Conn K S L fd input) m
          → ((c' : Endpoint World) → m ≡ done c' → Reach c₀ c')
          → Post (Aborts K) (Reach c₀) m
      returned (done c') h step = step c' refl
      returned (fatal cause) h step = h
      returned fault h step = h
      returned hung h step = h

  -- On a connection that begins idle with no owners, where `input` is what arrives and nothing is
  -- sent, after any sequence of handlers that returned and of what others do: what was sent is the
  -- headers of the RPCs that `input` begins with, in order, the last perhaps in part. Each header
  -- and each data is as long as its owner, which grows to the sizes in the meta headers. The only
  -- bytes that belong to no RPC are less than eight at a time, which were read before a recv that came
  -- to the end of the stream or failed for more than a wait, where all that came after them in `input`
  -- was still unread.
  pub Reach-Echo :
      (fd : ℤ) (input : List ℕ) (c₀ c : Endpoint World)
      → Idle K S L fd 0 0 c₀
      → incoming c₀.process.world c₀.sock ≡ input
      → sent c₀.process.world c₀.sock ≡ []
      → Bytes input
      → Reach c₀ c
      → Echo K S fd input (sent c.process.world c.sock)
  Reach-Echo fd input c₀ c idle inp out bytes r =
      Conn-Echo K S L fd input c
        (Reach-Conn fd input c₀ c bytes (at_rest opened tt idle (sym inp) out) r)
