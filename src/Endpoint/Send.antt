-- ===== src/Endpoint/Send.antt =====
-- OnSendReady and Reply.
use rpc_bench.Common.{
  ℕ, zero, suc, List, [], ◌∷◌, ◌++◌, Option, none, some, Bool, true, false, Outcome, done, hung,
  pcheck, ◌>>=◌, ◌>>◌, require, deref,
}
use rpc_bench.Kernel.{Kernel, got, error}
use rpc_bench.Kernel.Laws.{would_block}
use rpc_bench.Buffer.{Buffer, get_remain_size, is_clear, mark_handled}
use rpc_bench.Poll.{Interest, interest, is_writable, add_assign, readable, writable}
use rpc_bench.Poll.Selector.{reregister}
use rpc_bench.Socket.Transfer.{send_at}
use rpc_bench.Endpoint.{Endpoint, new_rpc, replying, drop_buffer}

module _ (K : Kernel) where
  open K use {World}

  -- Reregister(sock_, this, interest_) with a new interest.
  unfoldable pub set_interest : Endpoint World → Interest → Outcome (Endpoint World)
  set_interest c i = do
    w ← reregister K c.process.world c.epfd c.sock c.self i
    done (record c { interest = i; process = record c.process { world = w } })

  -- The socket takes no more now: wait until it is writable.
  unfoldable pub send_blocked : Endpoint World → ℕ → Outcome (Endpoint World)
  send_blocked c errno = do
    require (would_block errno) (pcheck errno)
    elim (is_writable c.interest) [
      | true ↦ done c
      | false ↦ set_interest c (add_assign c.interest (record { inner = writable }))
    ]

  -- The front buffer is out: the RPC is completed, and the buffer leaves the queue.
  unfoldable pub complete :
      Endpoint World → Buffer → List (Option Buffer) → Outcome (Endpoint World)
  complete c buffer rest = do
    let c' = record c {
      state = new_rpc;
      tx_queue = rest;
      process = record c.process { heap = drop_buffer c.process.heap (some buffer) };
    }
    elim (is_writable c'.interest) [
      | true ↦ do i ← interest readable; set_interest c' i
      | false ↦ done c'
    ]

  -- After MarkHandled on the front buffer.
  unfoldable pub after_sent :
      Endpoint World → Buffer → List (Option Buffer) → Outcome (Endpoint World)
  after_sent c buffer rest = elim (is_clear buffer) [
    | true ↦ complete c buffer rest
    | false ↦ done (record c { tx_queue = some buffer ∷ rest })
  ]

  -- One round of the loop, over the front of the queue; `true` is to go on.
  unfoldable pub send_front :
      Endpoint World → Option Buffer → List (Option Buffer) → Outcome (Bool × Endpoint World)
  send_front c front rest = do
    buffer ← deref front
    r ← send_at K c.process c.sock buffer.ptr buffer.bytes_handled (get_remain_size buffer)
    let c' = record c { process = r.1 }
    elim r.0 [
      | error errno ↦ do c'' ← send_blocked c' errno; done (false, c'')
      | got n ↦ do c'' ← after_sent c' (mark_handled n buffer) rest; done (true, c'')
    ]

  -- while (!tx_queue_.empty()), with fuel.
  unfoldable pub on_send_ready : ℕ → Endpoint World → Outcome (Endpoint World)
  on_send_ready zero c = hung
  on_send_ready (suc fuel) c = elim c.tx_queue [
    | [] ↦ done c
    | front ∷ rest ↦ do
      r ← send_front c front rest
      elim r.0 [ true ↦ on_send_ready fuel r.1 | false ↦ done r.1 ]
  ]

  -- Reply: the reply buffer moves to the end of the queue.
  unfoldable pub reply : ℕ → Endpoint World → Outcome (Bool × Endpoint World)
  reply fuel c = do
    c' ← on_send_ready fuel (record c {
      tx_queue = c.tx_queue ++ (c.reply_buffer ∷ []);
      reply_buffer = none;
      state = replying;
    })
    done (true, c')
