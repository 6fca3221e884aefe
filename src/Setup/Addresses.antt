-- ===== src/Setup/Addresses.antt =====
-- Where the application that the command line names connects to or listens.
use rpc_bench.Common.{
  ℕ, zero, suc, ◌%◌, ◌^◌, ◌<◌, ◌≡◌, ◌≢◌, refl, sym, ◌∙◌, subst, inl, inr, ◌⊎◌, ℤ, pos, Bool, true,
  false, List, [], ◌∷◌, All, Option, none, some, replicate, ◌==◌, Bool-cases, Option-cases, Outcome,
  done, fatal, Cause, check, Post, Post-bind, Post-mono, arith,
}
use rpc_bench.Options.{CommandOpts, Flag, returned, default_opts, parse_argument}
use rpc_bench.Options.Last.{Explained}
use rpc_bench.Options.Parse.{parse_argument-Explained}
use rpc_bench.App.{
  App, Kind, server_app, client_app, grpc_bw, socket_bw, brpc_bw, zeromq_bw, grpc_lat, grpc_tput,
  hotel_reservation, create, create_named,
}
use rpc_bench.App.Choice.{Chosen, made, create_named-Chosen}
use rpc_bench.Bandwidth.{brpc_server_init}
use rpc_bench.Setup
use rpc_bench.Setup.Decimal.{read_from-to_string}
use rpc_bench.Setup.{
  Call, channel, local_channel, brpc_channel, health_check, reflection, register_service,
  completion_queue, build_and_start, max_threads, max_message_size, listening_port,
  add_brpc_service, start_brpc, zmq_ctx_new, zmq_req, zmq_rep, zmq_connect, zmq_bind, get_addr_info,
  uri, to_string, uint16_of_int, ask, start, in_threads, tput_client_job,
}
use Prim.Native.String.{String}
use rpc_bench.Setup.Sides.{
  IsNumber, IsAddress, IsOfClient, IsOfServer, opened, opened-append, All-append, All-replicate,
  opened-queues, opened-channels, has_port, has_port-queues, clients_of, IsSide,
}

module _ (answer : Call → ℕ) where
  -- A library refused a call.
  abbrev pub Refused : Cause → Type 0
  Refused cause = (c : Call) × (answer c ≢ 0)

  -- What holds of the calls of an application, if it is one of those that `start` knows.
  abbrev pub Starts : (List Call → Type 0) → Option (Outcome (List Call)) → Type 0
  Starts Q none = Unit {0}
  Starts Q (some m) = Post Refused Q m

  ask-Post :
      (Q : List Call → Type 0) (c : Call) (cause : Cause)
      → Q (c ∷ [])
      → Post Refused Q (ask answer c cause)
  unfolding ask
  ask-Post Q c cause h = elim (Bool-cases (answer c == 0)) [
    | inl e ↦ rw (e, ask) h
    | inr e ↦ rw (e, ask) (c, ground (arith, e))
  ]

  -- Threads that each make the same call.
  in_threads-replicate :
      (n : ℕ) (c : Call) (job : Outcome (List Call))
      → job ≡ done (c ∷ [])
      → in_threads n job ≡ done (replicate n c)
  unfolding in_threads
  in_threads-replicate zero c job e = refl
  in_threads-replicate (suc n) c job e = rw (e, in_threads-replicate n c _ refl) refl

  module _ {D : Type 0} (threads : ℤ) (o : CommandOpts D) (n m : ℕ) (many : o.thread ≡ pos n)
      (named : o.port ≡ pos m) (int : m < 2 ^ 31) where
    to_string-IsNumber : IsNumber m (to_string o.port)
    to_string-IsNumber = rw named (read_from-to_string m (omega arith))

    uint16-IsNumber : IsNumber (m % 2 ^ 16) (to_string (pos (uint16_of_int o.port)))
    unfolding uint16_of_int
    uint16-IsNumber = rw named (read_from-to_string (m % 2 ^ 16) (omega arith))

    uri-IsAddress : (host : String) → IsAddress host m (uri host o.port)
    unfolding uri
    uri-IsAddress host = (to_string o.port, refl, to_string-IsNumber)

    Started : List String → App → Type 0
    Started rest x =
        Starts (λ calls. IsSide m rest x calls × (opened calls ≡ clients_of o x))
          (start answer threads o x)

    client-Started : (k : Kind) (h : String) → o.host ≡ some h → Started (h ∷ []) (client_app k)
    unfolding Started start Setup.grpc_bw_client_init Setup.grpc_lat_client_init
        Setup.hotel_client_init Setup.zeromq_client_init Setup.tput_client_run
        Setup.brpc_client_init Setup.socket_client_addr Setup.host_addr_info tput_client_job
    client-Started grpc_bw h e = rw e ((h, refl, (uri-IsAddress h, tt)), refl)
    client-Started grpc_lat h e = rw e ((h, refl, (uri-IsAddress h, tt)), refl)
    client-Started hotel_reservation h e = rw e ((h, refl, (uri-IsAddress h, tt)), refl)
    client-Started zeromq_bw h e =
        rw e ((h, refl, (tt, (tt, ((uri h o.port, refl, uri-IsAddress h), tt)))), refl)
    client-Started brpc_bw h e = rw e (ask-Post _ _ _ ((h, refl, (uri-IsAddress h, tt)), refl))
    client-Started socket_bw h e = tt
    client-Started grpc_tput h e =
        let c = local_channel (uri h o.port) in
        let job : tput_client_job answer o ≡ done (c ∷ []) = rw e refl in
        rw (many, in_threads-replicate n c _ job)
          (
            (
              h,
              refl,
              All-append (IsOfClient h m) (replicate n completion_queue) (replicate n c)
                  (All-replicate (IsOfClient h m) completion_queue tt n)
                  (All-replicate (IsOfClient h m) c (uri-IsAddress h) n),
            ),
            omega (
              arith,
              opened-append (replicate n completion_queue) (replicate n c),
              opened-queues n,
              opened-channels n (uri h o.port),
            ),
          )

    -- The server of the latency and of the throughput application is one class.
    lat_server_run-Sided :
        Post Refused
          (λ calls. (All (IsOfServer m) calls × (has_port false calls ≡ true)) × (opened calls ≡ 1))
          (Setup.lat_server_run answer o)
    unfolding Setup.lat_server_run
    lat_server_run-Sided =
        let queues = replicate n completion_queue in
        rw many (
          (
            (
              tt,
              (
                uri-IsAddress "0.0.0.0",
                (
                  tt,
                  All-append (IsOfServer m) queues (build_and_start ∷ [])
                      (All-replicate (IsOfServer m) completion_queue tt n) (tt, tt),
                ),
              ),
            ),
            has_port-queues n (build_and_start ∷ []) refl,
          ),
          omega (arith, opened-append queues (build_and_start ∷ []), opened-queues n),
        )

    server-Started : (k : Kind) → Started [] (server_app k)
    unfolding Started start Setup.grpc_bw_server_init Setup.hotel_server_init Setup.lat_server_run
        Setup.zeromq_server_init Setup.socket_server_addr Setup.passive_addr_info brpc_server_init
    server-Started grpc_bw =
        ((refl, (tt, (tt, (tt, (tt, (uri-IsAddress "0.0.0.0", (tt, (tt, tt))))))), refl), refl)
    server-Started hotel_reservation = (
      (refl, (tt, (tt, (tt, (tt, (uri-IsAddress "0.0.0.0", (tt, (tt, (tt, tt)))))))), refl),
      refl,
    )
    server-Started socket_bw = tt
    server-Started zeromq_bw =
        Post-bind Refused (λ calls. calls ≡ zmq_bind _ ∷ []) _ (ask answer _ check) _
          (ask-Post _ _ check refl)
          (λ bound e.
            subst
              (λ x.
                (IsSide m [] (server_app zeromq_bw) (zmq_ctx_new ∷ zmq_rep ∷ x))
                × (opened (zmq_ctx_new ∷ zmq_rep ∷ x) ≡ 1))
              (sym e)
              (
                (
                  refl,
                  (tt, (tt, ((uri "0.0.0.0" o.port, refl, uri-IsAddress "0.0.0.0"), tt))),
                  refl,
                ),
                refl,
              ))
    server-Started brpc_bw = elim (Bool-cases (answer add_brpc_service == 0)) [
      | inr e ↦ rw e (add_brpc_service, ground (arith, e))
      | inl e ↦ rw e (elim (Bool-cases (answer (start_brpc o.port) == 0)) [
        | inr f ↦ rw f (start_brpc o.port, ground (arith, f))
        | inl f ↦ rw f ((refl, (tt, (named, tt)), refl), refl)
      ])
    ]
    server-Started grpc_lat =
        Post-mono Refused _ _ (Setup.lat_server_run answer o) lat_server_run-Sided
          (λ calls ((all, port), one). ((refl, all, port), one))
    server-Started grpc_tput =
        Post-mono Refused _ _ (Setup.lat_server_run answer o) lat_server_run-Sided
          (λ calls ((all, port), one). ((refl, all, port), one))

    -- An application that was chosen, on the options of a server or of a client.
    Chosen-Started :
        (rest : List String) (b : Bool) (app rpc : String) (x : App)
        → Chosen b app rpc (done (some x))
        → ((k : Kind) → Started rest (made b k))
        → Started rest x
    Chosen-Started rest b app rpc x (k, named, e) started = subst (Started rest) (sym e) (started k)

    create-Started :
        (rest : List String) (x : App)
        → ((rest ≡ []) × (o.is_server ≡ some true) × (o.host ≡ none))
          ⊎ ((h : String) × (rest ≡ h ∷ []) × (o.is_server ≡ some false) × (o.host ≡ some h))
        → create o ≡ done (some x)
        → Started rest x
    unfolding create
    create-Started rest x side e = elim (Option-cases o.app) [
      | inl missing ↦
          let none_made : create o ≡ fatal check = rw missing refl in absurd (cc (none_made, e))
      | inr (app, ha) ↦ elim (Option-cases o.rpc) [
        | inl missing ↦
            let none_made : create o ≡ fatal check = rw (ha, missing) refl in
            absurd (cc (none_made, e))
        | inr (rpc, hr) ↦ elim side [
          | inl (empty, server, host) ↦
              let named : create_named (some true) app rpc ≡ done (some x) =
                let same : create o ≡ create_named (some true) app rpc = rw (ha, hr, server) refl in
                sym same ∙ e in
              Chosen-Started rest true app rpc x
                (subst (Chosen true app rpc) named (create_named-Chosen true app rpc).1)
                (λ k. subst (λ r. Started r (server_app k)) (sym empty) (server-Started k))
          | inr (h, one, client, host) ↦
              let named : create_named (some false) app rpc ≡ done (some x) =
                let same : create o ≡ create_named (some false) app rpc =
                  rw (ha, hr, client) refl in
                sym same ∙ e in
              Chosen-Started rest false app rpc x
                (subst (Chosen false app rpc) named (create_named-Chosen false app rpc).1)
                (λ k. subst (λ r. Started r (client_app k)) (sym one) (client-Started k h host))
        ]
      ]
    ]

  -- On options that ParseArgument made of a command line, where the number of threads and the port
  -- are not negative and the port is an int, the application over gRPC, brpc or ZeroMQ that
  -- App::Create chose starts unless a library refuses a call: a client connects to the one host of
  -- the line at the port of the options, which it writes in decimal, once, or once for each thread in
  -- the throughput application, and listens nowhere; a server is there only without a host, connects
  -- to nothing, and listens once, at that port of every interface: a gRPC server is built and started
  -- once, after it was given that port. An optional without a value is never read.
  pub start-Reaches :
      (D : Type 0) (of_int : ℤ → D) (stoi : String → Option ℤ) (stof : String → Option D)
      (threads : ℤ) (flags : List Flag) (rest : List String) (o : CommandOpts D) (x : App) (n m : ℕ)
      → parse_argument D of_int stoi stof (default_opts D of_int stoi stof) flags rest
        ≡ returned 0 o
      → create o ≡ done (some x)
      → o.thread ≡ pos n
      → o.port ≡ pos m
      → m < 2 ^ 31
      → Starts
          (λ calls. IsSide m rest x calls × (opened calls ≡ clients_of o x))
          (start answer threads o x)
  unfolding default_opts create-Started Started
  start-Reaches D of_int stoi stof threads flags rest o x n m parsed made many named int =
      let explained =
        subst (Explained D of_int stoi stof (default_opts D of_int stoi stof) flags rest) parsed (
          parse_argument-Explained D of_int stoi stof (default_opts D of_int stoi stof) flags rest
            refl) in
      create-Started threads o n m many named int rest x explained.1 made
