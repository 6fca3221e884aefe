-- ===== src/Endpoint/Connection.antt =====
-- BwServerEndpoint over the life of a connection: what holds between two calls of its handlers.
use rpc_bench.Common.{
  ℕ, ◌≤◌, ◌≡◌, sym, ap, ap₂, ◌∙◌, subst, inl, inr, ℤ, List, [], ◌++◌, append_assoc, Option, true,
  max, take, drop, take_all, append-nil, length, arith,
}
use rpc_bench.Kernel.{Kernel}
use rpc_bench.Kernel.Laws.{Stream, InterestList}
use rpc_bench.Buffer.{Buffer}
use rpc_bench.Poll.{is_writable}
use rpc_bench.Endpoint.{Endpoint, State}
use rpc_bench.Endpoint.Receive.{decode_u32}
use rpc_bench.Endpoint.Frames.{Exchange, During, Partly, AtReply, Answered}
use rpc_bench.Endpoint.Idle.{Idle}
use rpc_bench.Endpoint.Rpc.{Served, waiting, answered, Finished-Idle}
use rpc_bench.Endpoint.History.{
  History, rpc, received, replied, header_room, data_room, IsSound, Echo, settled, answering,
}

-- RPC `g` began after the history `h` of a connection on which `input` arrives.
pub record IsAfter (fd : ℤ) (input : List ℕ) (h : History) (g : Exchange) : Type 0 where
  pub on : g.fd ≡ fd
  pub before : input ≡ received h ++ g.input
  pub out : g.output ≡ replied h
  pub header_size : g.old_header ≡ header_room h
  pub data_size : g.old_data ≡ data_room h

module _ (K : Kernel) (S : Stream K) (L : InterestList K) where
  open K use {World}
  open S use {incoming, sent, patience}
  open L use {registered}

  -- The endpoint waits for an RPC, or for the rest of one, or to send the rest of a reply.
  pub data Conn (fd : ℤ) (input : List ℕ) (c : Endpoint World) : Type 0 where
    at_rest :
        (h : History)
        → IsSound K S fd input h
        → Idle K S L fd (header_room h) (data_room h) c
        → input ≡ received h ++ incoming c.process.world c.sock
        → sent c.process.world c.sock ≡ replied h
        → Conn fd input c
    in_rpc :
        (h : History) (g : Exchange) (st : State) (hb db : List ℕ) (i j : ℕ)
        → IsSound K S fd input h
        → IsAfter fd input h g
        → Partly K S L g st hb db i j c
        → Conn fd input c
    in_reply :
        (h : History) (g : Exchange) (hb db : List ℕ) (k : ℕ)
        → IsSound K S fd input h
        → IsAfter fd input h g
        → k ≤ length hb
        → AtReply K S L g hb db k c
        → is_writable c.interest ≡ true
        → Conn fd input c

  -- The RPC that is received in whole joins the history.
  joined :
      (fd : ℤ) (input : List ℕ) (h : History) (g : Exchange) (st : State) (hb db : List ℕ)
      (tx : List (Option Buffer)) (rb : Option Buffer) (out : List ℕ) (c : Endpoint World)
      → IsSound K S fd input h
      → IsAfter fd input h g
      → During K S L g st hb db (length hb) (length db) tx rb out c
      → IsSound K S fd input (rpc h g.meta hb db)
        × (input ≡ received (rpc h g.meta hb db) ++ incoming c.process.world c.sock)
  joined fd input h g st hb db tx rb out c sound a d =
      let left = incoming c.process.world c.sock in
      (
        (
          sound,
          d.meta_length,
          d.header_length ∙ ap (λ n. max n (decode_u32 g.meta)) a.header_size,
          d.data_length ∙ ap (λ n. max n (decode_u32 (drop 4 g.meta))) a.data_size,
        ),
        a.before
            ∙ ap (◌++◌ (received h)) (
                d.stream
                ∙ ap₂ (λ x y. g.meta ++ (x ++ (y ++ left))) (take_all (length hb) hb (omega arith))
                    (take_all (length db) db (omega arith))
                ∙ ap (◌++◌ g.meta) (sym (append_assoc hb db left))
                ∙ sym (append_assoc g.meta (hb ++ db) left))
            ∙ sym (append_assoc (received h) (g.meta ++ (hb ++ db)) left),
      )

  pub Answered-Conn :
      (fd : ℤ) (input : List ℕ) (h : History) (g : Exchange) (hb db : List ℕ) (c : Endpoint World)
      → IsSound K S fd input h
      → IsAfter fd input h g
      → Answered K S L g hb db c
      → Conn fd input c
  Answered-Conn fd input h g hb db c sound a (inr (k, fits, d, armed)) =
      in_reply h g hb db k sound a fits d armed
  Answered-Conn fd input h g hb db c sound a (inl f) =
      let whole = joined fd input h g _ hb db [] _ hb c sound a f in
      let idle = Finished-Idle K S L g hb db c f in
      at_rest (rpc h g.meta hb db) whole.0
        (subst
          (λ s. Idle K S L s (header_room (rpc h g.meta hb db)) (data_room (rpc h g.meta hb db)) c)
          a.on
          (subst (λ n. Idle K S L g.fd n (data_room (rpc h g.meta hb db)) c) whole.0.2
            (subst (λ m. Idle K S L g.fd (length hb) m c) whole.0.3 idle)))
        whole.1 (f.replied ∙ ap (λ o. o ++ hb) a.out)

  pub Served-Conn :
      (fd : ℤ) (input : List ℕ) (h : History) (g : Exchange) (c : Endpoint World)
      → IsSound K S fd input h
      → IsAfter fd input h g
      → Served K S L g c
      → Conn fd input c
  Served-Conn fd input h g c sound a (waiting st hb db i j p) = in_rpc h g st hb db i j sound a p
  Served-Conn fd input h g c sound a (answered hb db d) =
      Answered-Conn fd input h g hb db c sound a d

  -- What the bytes show of it.
  pub Conn-Echo :
      (fd : ℤ) (input : List ℕ) (c : Endpoint World)
      → Conn fd input c
      → Echo K S fd input (sent c.process.world c.sock)
  Conn-Echo fd input c (at_rest h sound idle inp out) = settled h _ sound inp out
  Conn-Echo fd input c (in_rpc h g st hb db i j sound a p) =
      settled h g.input sound a.before (p.during.replied ∙ append-nil g.output ∙ a.out)
  Conn-Echo fd input c (in_reply h g hb db k sound a fits d armed) =
      let whole = joined fd input h g _ hb db _ _ (take k hb) c sound a d in
      answering h g.meta hb db _ k whole.0 whole.1 fits (d.replied ∙ ap (λ o. o ++ take k hb) a.out)
