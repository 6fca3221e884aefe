-- ===== src/Server/Starting.antt =====
-- Init of src/socket/socket_bw_app.cc.
use rpc_bench.Common.{
  Post-causes, ◌≡◌, refl, ℤ, pos, negsuc, ◌==ℤ◌, ◌==◌, true, Bool-cases, inl, inr,
}
use rpc_bench.Kernel.{Kernel, Reply, got, error, socket, bind, listen, setsockopt}
use rpc_bench.Kernel.Laws.{Reply-cases}
use rpc_bench.Poll.{interest, readable}
use rpc_bench.Poll.Selector.{register}
use rpc_bench.Socket.{
  AddrInfo, create, set_reuse_addr, set_non_block, bind_socket, listen_socket, invalid_socket,
  zero_return,
}
use rpc_bench.Server.{Server, size_of_fd, init}
use rpc_bench.Server.Aborts.{Ends, Ends-bind, Any, set_non_block-Admits, register-Admits}

module _ (K : Kernel) where
  open K use {World, call}

  create-Ends : (w : World) (ai : AddrInfo) → Ends Any (create K w ai)
  unfolding create
  create-Ends w ai =
      elim (Reply-cases (call w (socket ai.ai_family ai.ai_socktype ai.ai_protocol)).0) [
        | inl (fd, e) ↦ elim (Bool-cases (fd ==ℤ invalid_socket)) [
          | inl bad ↦ rw (e, create) (rw bad tt)
          | inr good ↦ rw (e, create) (rw good tt)
        ]
        | inr (errno, e) ↦ rw (e, create) tt
      ]

  zero_return-Ends : (r : Reply ℤ × World) → Ends Any (zero_return K r)
  unfolding zero_return
  zero_return-Ends (got (pos n), w) = elim (Bool-cases (n == 0)) [
    | inl ok ↦ rw ok tt
    | inr bad ↦ rw bad tt
  ]
  zero_return-Ends (got (negsuc n), w) = tt
  zero_return-Ends (error e, w) = tt

  -- The server keeps its objects, its map and its next number.
  abbrev pub IsKept : Server World → Server World → Type 0
  IsKept s s' = (s'.objects ≡ s.objects) × (s'.endpoints ≡ s.endpoints) × (s'.fresh ≡ s.fresh)

  -- Init returns with the objects, the map and the next number as they were, or aborts.
  pub init-Ends : (s : Server World) (ai : AddrInfo) → Ends (IsKept s) (init K s ai)
  unfolding init interest set_reuse_addr bind_socket listen_socket register
  init-Ends s ai =
      Ends-bind Any (IsKept s) (create K s.process.world ai) _ (create-Ends s.process.world ai)
        (λ (fd, w₀) h₀.
          Ends-bind Any (IsKept s) (set_reuse_addr K w₀ fd true) _
            (zero_return-Ends (call w₀ (setsockopt fd 1 2 1)))
            (λ w₁ h₁.
              Ends-bind Any (IsKept s) (set_non_block K w₁ fd true) _
                (Post-causes _ _ Any _ (set_non_block-Admits K w₁ fd) (λ c u. tt))
                (λ w₂ h₂.
                  Ends-bind Any (IsKept s) (bind_socket K w₂ fd ai) _
                    (zero_return-Ends (call w₂ (bind fd ai.ai_addr)))
                    (λ w₃ h₃.
                      Ends-bind Any (IsKept s) (listen_socket K w₃ fd 128) _
                        (zero_return-Ends (call w₃ (listen fd 128)))
                        (λ w₄ h₄.
                          Ends-bind Any (IsKept s)
                            (register K w₄ s.poll fd (size_of_fd fd) (record { inner = readable }))
                            _ (Post-causes _ _ Any _ (register-Admits K w₄ s.poll fd _) (λ c u. tt))
                            (λ w₅ h₅. (refl, refl, refl)))))))
