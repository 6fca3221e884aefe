-- ===== src/Zeromq/Laws.antt =====
-- Documented behaviour of a ZeroMQ socket of the kind REQ or REP, as hypotheses.
use rpc_bench.Common.{ℕ, ◌^◌, ◌≤◌, ◌<◌, ◌≡◌, Bool, true, false, List, [], ◌∷◌, ◌++◌, length}
use rpc_bench.Kernel.{got, error}
use rpc_bench.Zeromq.{Zmq, sndmore}

module _ (Z : Zmq) where
  open Z use {World, msg_send, msg_recv, msg_more, msg_init, recv}

  -- A socket of the kind REQ or REP: what it was given to send, as parts with their flags, and what
  -- comes in, as parts with their more flag. While it may send, a send queues the whole part, or it
  -- fails and can be tried again, which `patience` bounds.
  pub record ZmqLaws : Type 0 where
    pub outbox : World → List (List ℕ × ℕ)
    pub inbox : World → List (List ℕ × Bool)
    pub patience : World → ℕ
    pub may_send : World → Bool
    pub send_got :
        (w : World) (msg : List ℕ) (flags n : ℕ)
        → length msg < 2 ^ 31
        → may_send w ≡ true
        → (msg_send w msg flags).0 ≡ got n
        → (n ≡ length msg)
          × (outbox (msg_send w msg flags).1 ≡ outbox w ++ ((msg, flags) ∷ []))
          × (inbox (msg_send w msg flags).1 ≡ inbox w)
          × (patience (msg_send w msg flags).1 ≤ patience w)
    pub send_more :
        (w : World) (msg : List ℕ) (n : ℕ)
        → may_send w ≡ true
        → (msg_send w msg sndmore).0 ≡ got n
        → may_send (msg_send w msg sndmore).1 ≡ true
    pub send_error :
        (w : World) (msg : List ℕ) (flags e : ℕ)
        → may_send w ≡ true
        → (msg_send w msg flags).0 ≡ error e
        → (outbox (msg_send w msg flags).1 ≡ outbox w)
          × (inbox (msg_send w msg flags).1 ≡ inbox w)
          × (patience (msg_send w msg flags).1 < patience w)
          × (may_send (msg_send w msg flags).1 ≡ true)
    pub recv_outbox : (w : World) (n : ℕ) → outbox (recv w n).1 ≡ outbox w
    -- A part that has come in is received; after the last part of a request the socket may send.
    pub msg_recv_part :
        (w : World) (part : List ℕ) (more : Bool) (rest : List (List ℕ × Bool))
        → inbox w ≡ (part, more) ∷ rest
        → ((msg_recv w).0 ≡ got part)
          × (msg_more (msg_recv w).1 ≡ more)
          × (inbox (msg_recv w).1 ≡ rest)
          × (outbox (msg_recv w).1 ≡ outbox w)
          × (patience (msg_recv w).1 ≤ patience w)
    pub last_may_send :
        (w : World) (part : List ℕ) (rest : List (List ℕ × Bool))
        → inbox w ≡ (part, false) ∷ rest
        → may_send (msg_recv w).1 ≡ true
    pub msg_init_ok : (w : World) → msg_init w ≡ 0

-- The parts of one message: each but the last says that more follow.
abbrev pub IsMessage : List (List ℕ × Bool) → List ℕ → Type 0
IsMessage [] last = ⊥
IsMessage ((part, more) ∷ []) last = (more ≡ false) × (part ≡ last)
IsMessage ((part, more) ∷ (next ∷ rest)) last = (more ≡ true) × IsMessage (next ∷ rest) last
