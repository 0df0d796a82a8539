-- ===== src/Server/Shutdown/Alone.antt =====
-- ServerListener::shutdown without a connection.
use magicserver.Prelude.{
  ℕ, suc, ◌≡◌, refl, true, [], ◌∷◌, ◌++◌, ◌==ℤ◌, arith, ok, Returns, returns, Returns-bind,
}
use magicserver.Errors.{MsrvResult}
use magicserver.Listener.{Descriptor}
use magicserver.Listener.Removal.{Watches}
use magicserver.Server.{Server}
use magicserver.Server.Events.{Process}
use magicserver.Server.Shutdown.{announce, shutdown}
use magicserver.Server.Shutdown.Walk.{iterator, conn_iter_any, none_left}
use magicserver.Server.Shutdown.Single.{close_all_end, own_socket}

-- When no connection is left once the handler has been told: shutdown returns the handler's result, has
-- closed the server's own socket, once, watches no descriptor any more, and leaves the lock and what the handler keeps as they were.
pub shutdown_alone :
    {s₁ : Server} {d : Descriptor} (process : Process) (s : Server) (result : MsrvResult) (f : ℕ)
    → announce process s ≡ ok (result, s₁)
    → Watches s₁.listener (d ∷ [])
    → (d.fd ==ℤ s₁.socket) ≡ true
    → Returns
        (λ (r, s').
          (r ≡ result)
          × Watches s'.listener []
          × (s'.closed ≡ s₁.closed ++ s₁.socket ∷ [])
          × (s'.listener.thread_lock ≡ s₁.listener.thread_lock)
          × (s'.pool ≡ s₁.pool))
        (shutdown process (suc (suc f)) s)
unfolding shutdown
shutdown_alone {s₁} process s result f told w own =
    rw
      (
        told,
        conn_iter_any f s₁ w own tt,
        close_all_end (suc f) (iterator 1 s₁.listener.descriptors) s₁
            (none_left 1 w.held (omega arith)),
      )
      (Returns-bind (own_socket s₁ w own)
        λ (q, s') (w', closed, locked, pool, _). returns (refl, w', closed, locked, pool))
