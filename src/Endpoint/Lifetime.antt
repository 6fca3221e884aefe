-- ===== src/Endpoint/Lifetime.antt =====
-- The handlers of BwServerEndpoint one after the other, with what others do in between.
use rpc_bench.Common.{
  ℕ, ◌+◌, ◌≤◌, ◌<◌, ◌^◌, ◌≡◌, refl, sym, ap, ◌∙◌, subst, inl, inr, ℤ, List, [], ◌++◌, append_assoc,
  Option, max, take, length, Bytes, All-right, Post, Post-mono, arith,
}
use rpc_bench.Kernel.{Kernel}
use rpc_bench.Kernel.Laws.{Stream, InterestList, Memory}
use rpc_bench.Heap.{Heap, Holds}
use rpc_bench.Buffer.{Buffer}
use rpc_bench.Socket.Transfer.{Process}
use rpc_bench.Socket.Growth.{Aborts, NoMore}
use rpc_bench.Endpoint.{Endpoint, State}
use rpc_bench.Endpoint.Send.{on_send_ready}
use rpc_bench.Endpoint.Receive.{decode_u32, on_recv_ready, dispatch}
use rpc_bench.Endpoint.Frames.{Exchange, During, Answered}
use rpc_bench.Endpoint.Idle.{Owner, IsBlockOf, decode_u32-lt}
use rpc_bench.Endpoint.Sending.{on_send_ready-Answered, on_send_ready-done}
use rpc_bench.Endpoint.Rpc.{Served, Taken, short, begun, on_recv_ready-Served, on_recv_ready-Taken}
use rpc_bench.Endpoint.History.{History, cut, received, replied, header_room, data_room, IsSound}
use rpc_bench.Endpoint.Connection.{Conn, at_rest, in_rpc, in_reply, Answered-Conn, Served-Conn}

module _ (K : Kernel) (S : Stream K) (L : InterestList K) (M : Memory K) where
  open K use {World}
  open S use {incoming, sent, patience}
  open L use {registered}

  -- Fuel for one handler: the delays and a meta header, and every byte of the largest header.
  pub record IsEnough (c : Endpoint World) (fuel : ℕ) : Type 0 where
    pub patient : 8 + patience c.process.world c.sock < fuel
    pub long : 2 ^ 32 + 2 ≤ fuel

  Taken-Conn :
      (fd : ℤ) (input : List ℕ) (h : History) (c c' : Endpoint World)
      → IsSound K S fd input h
      → input ≡ received h ++ incoming c.process.world c.sock
      → sent c.process.world c.sock ≡ replied h
      → Taken K S L M fd
          (header_room h)
          (data_room h)
          (incoming c.process.world c.sock)
          (sent c.process.world c.sock)
          c'
      → Conn K S L fd input c'
  Taken-Conn fd input h c c' sound inp out (short (idle, (bits, few, split, why), same)) =
      let read = inp ∙ ap (◌++◌ (received h)) split ∙ sym (append_assoc (received h) bits _) in
      let (lost, rest) =
        subst
          (λ s.
            NoMore K s 8 bits c'.process.world
            × (input ≡ (received h ++ bits) ++ incoming c'.process.world s))
          idle.linked.on (why, read) in
      at_rest (cut h bits) (sound, few, (c'.process.world, lost, rest)) idle read (same ∙ out)
  Taken-Conn fd input h c c' sound inp out (begun meta x y s) =
      Served-Conn K S L fd input h _ c' sound
        (record { on = refl; before = inp; out = out; header_size = refl; data_size = refl }) s

  -- The fuel covers the header of an RPC under way.
  header_below :
      (g : Exchange) (st : State) (hb db : List ℕ) (i j : ℕ) (tx : List (Option Buffer))
      (rb : Option Buffer) (out : List ℕ) (c : Endpoint World)
      → During K S L g st hb db i j tx rb out c
      → max g.old_header (decode_u32 g.meta) < 2 ^ 32
  header_below g st hb db i j tx rb out c d = omega (arith, d.header_length, d.held.header_fits)

  -- OnRecvReady, unless the socket fails or memory is short, returns and the connection is sound.
  pub on_recv_ready-Conn :
      (fuel : ℕ) (fd : ℤ) (input : List ℕ) (c : Endpoint World)
      → Conn K S L fd input c
      → Bytes input
      → IsEnough c fuel
      → Post (Aborts K) (Conn K S L fd input) (on_recv_ready K fuel c)
  unfolding on_recv_ready dispatch
  on_recv_ready-Conn fuel fd input c (at_rest h sound idle inp out) bytes enough =
      let left = incoming c.process.world c.sock in
      let left-Bytes = All-right _ (received h) left (subst Bytes inp bytes) in
      Post-mono (Aborts K)
        (Taken K S L M fd (header_room h) (data_room h) left (sent c.process.world c.sock))
        (Conn K S L fd input) _
        (on_recv_ready-Taken K S L M fuel fd (header_room h) (data_room h) left
          (sent c.process.world c.sock) c idle refl refl left-Bytes enough.patient
          (omega (arith, idle.header_fits, decode_u32-lt left left-Bytes, enough.long)))
        (λ c' t. Taken-Conn fd input h c c' sound inp out t)
  on_recv_ready-Conn fuel fd input c (in_rpc h g st hb db i j sound a p) bytes enough =
      Post-mono (Aborts K) (Served K S L g) (Conn K S L fd input) _
        (on_recv_ready-Served K S L fuel g st hb db i j c p
          (omega (arith, enough.long, header_below g st hb db i j [] _ [] c p.during)))
        (λ c' s. Served-Conn K S L fd input h g c' sound a s)
  on_recv_ready-Conn fuel fd input c (in_reply h g hb db k sound a fits d armed) bytes enough =
      subst (λ s. Post (Aborts K) (Conn K S L fd input) (dispatch K s fuel c)) (sym d.state)
        (in_reply h g hb db k sound a fits d armed)

  -- OnSendReady, unless the socket fails, returns and the connection is sound.
  pub on_send_ready-Conn :
      (fuel : ℕ) (fd : ℤ) (input : List ℕ) (c : Endpoint World)
      → Conn K S L fd input c
      → 2 ^ 32 + 2 ≤ fuel
      → Post (Aborts K) (Conn K S L fd input) (on_send_ready K fuel c)
  on_send_ready-Conn fuel fd input c (at_rest h sound idle inp out) enough =
      subst (Post (Aborts K) (Conn K S L fd input))
        (sym (on_send_ready-done K S L fuel c idle.queue (omega (arith, enough))))
        (at_rest h sound idle inp out)
  on_send_ready-Conn fuel fd input c (in_rpc h g st hb db i j sound a p) enough =
      subst (Post (Aborts K) (Conn K S L fd input))
        (sym (on_send_ready-done K S L fuel c p.during.queue (omega (arith, enough))))
        (in_rpc h g st hb db i j sound a p)
  on_send_ready-Conn fuel fd input c (in_reply h g hb db k sound a fits d armed) enough =
      Post-mono (Aborts K) (Answered K S L g hb db) (Conn K S L fd input) _
        (on_send_ready-Answered K S L fuel g hb db k c d fits
          (omega (arith, enough, d.held.header_fits)))
        (λ c' r. Answered-Conn K S L fd input h g hb db c' sound a r)

  -- What others do between two handlers: the socket's data and registration and the endpoint's
  -- blocks are left alone.
  pub record IsUntouched (c : Endpoint World) (p : Process World) : Type 0 where
    pub same_incoming : incoming p.world c.sock ≡ incoming c.process.world c.sock
    pub same_sent : sent p.world c.sock ≡ sent c.process.world c.sock
    pub same_registered :
        registered p.world c.epfd c.sock ≡ registered c.process.world c.epfd c.sock
    pub header_kept :
        (a : ℕ) (block : List ℕ)
        → IsBlockOf c.header_buffer_owner a
        → Holds c.process.heap a block
        → Holds p.heap a block
    pub data_kept :
        (a : ℕ) (block : List ℕ)
        → IsBlockOf c.data_buffer_owner a
        → Holds c.process.heap a block
        → Holds p.heap a block

  abbrev pub with_process : Endpoint World → Process World → Endpoint World
  with_process c p = record c { process = p }

  Owner-kept :
      (h h' : Heap) (o : Option Buffer) (n : ℕ)
      → ((a : ℕ) (block : List ℕ) → IsBlockOf o a → Holds h a block → Holds h' a block)
      → Owner h o n
      → Owner h' o n
  Owner-kept h h' o n keep (inl nothing) = inl nothing
  Owner-kept h h' o n keep (inr (a, block, own, held, l)) =
      inr (a, block, own, keep a block (length block, own) held, l)

  During-kept :
      (g : Exchange) (st : State) (hb db : List ℕ) (i j : ℕ) (tx : List (Option Buffer))
      (rb : Option Buffer) (out : List ℕ) (c : Endpoint World) (p : Process World)
      → IsUntouched c p
      → During K S L g st hb db i j tx rb out c
      → During K S L g st hb db i j tx rb out (with_process c p)
  During-kept g st hb db i j tx rb out c p u d = record {
    linked = record {
      on = d.linked.on;
      known = u.same_registered ∙ d.linked.known;
      valid = d.linked.valid;
    };
    held = record {
      header_owner = d.held.header_owner;
      data_owner = d.held.data_owner;
      header_view = d.held.header_view;
      data_view = d.held.data_view;
      header_holds =
          u.header_kept g.header_block hb (length hb, d.held.header_owner) d.held.header_holds;
      data_holds = u.data_kept g.data_block db (length db, d.held.data_owner) d.held.data_holds;
      distinct = d.held.distinct;
      header_fits = d.held.header_fits;
      data_fits = d.held.data_fits;
      header_part = d.held.header_part;
      data_part = d.held.data_part;
    };
    state = d.state;
    queue = d.queue;
    reply_free = d.reply_free;
    meta_length = d.meta_length;
    header_length = d.header_length;
    data_length = d.data_length;
    stream = d.stream ∙ ap (λ s. g.meta ++ (take i hb ++ (take j db ++ s))) (sym u.same_incoming);
    replied = u.same_sent ∙ d.replied;
  }

  pub kept-Conn :
      (fd : ℤ) (input : List ℕ) (c : Endpoint World) (p : Process World)
      → IsUntouched c p
      → Conn K S L fd input c
      → Conn K S L fd input (with_process c p)
  kept-Conn fd input c p u (at_rest h sound idle inp out) =
      at_rest h sound
        (record {
          linked = record {
            on = idle.linked.on;
            known = u.same_registered ∙ idle.linked.known;
            valid = idle.linked.valid;
          };
          header_owner =
              Owner-kept c.process.heap p.heap c.header_buffer_owner (header_room h) u.header_kept
                idle.header_owner;
          data_owner =
              Owner-kept c.process.heap p.heap c.data_buffer_owner (data_room h) u.data_kept
                idle.data_owner;
          distinct = idle.distinct;
          header_view = idle.header_view;
          data_view = idle.data_view;
          header_fits = idle.header_fits;
          data_fits = idle.data_fits;
          reply_free = idle.reply_free;
          queue = idle.queue;
          state = idle.state;
        })
        (inp ∙ ap (◌++◌ (received h)) (sym u.same_incoming)) (u.same_sent ∙ out)
  kept-Conn fd input c p u (in_rpc h g st hb db i j sound a q) =
      in_rpc h g st hb db i j sound a (record {
        during = During-kept g st hb db i j [] _ [] c p u q.during;
        in_order = q.in_order;
        data_missing = q.data_missing;
        header_missing = q.header_missing;
      })
  kept-Conn fd input c p u (in_reply h g hb db k sound a fits d armed) =
      in_reply h g hb db k sound a fits (During-kept g _ hb db _ _ _ _ (take k hb) c p u d) armed
