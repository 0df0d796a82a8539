-- ===== src/Worker/Handler/Quiet.antt =====
-- A WorkerPool whose queue is empty, as the listener's thread sees it.
use magicserver.Prelude.{
  ℕ, zero, suc, ◌≡◌, refl, true, false, List, Bool, if◌then◌else◌, Option, none, some, [], ok,
  ◌>>=◌, Returns, returns, Returns-bind, Returns-ok,
}
use magicserver.Errors.{success}
use magicserver.Listener.Removal.{Watches}
use magicserver.Listener.{Descriptor}
use magicserver.Request.{Request, get_type, shutdown_request}
use magicserver.Server.{Server}
use magicserver.Server.Events.{Process}
use magicserver.Worker.{Phase, delete_workers}
use magicserver.Worker.Handler.{
  log_pool, serve_queue, final_call, pool_shutdown, pool_process, destroy_pool,
}

-- Workers without a request do nothing.
serve_queue_none :
    (handle : Process) (n : ℕ) (s : Server) → s.pool.queue ≡ [] → serve_queue handle n s ≡ ok s
unfolding serve_queue
serve_queue_none handle zero s e = refl
serve_queue_none handle (suc n) s e = rw e refl

-- The server when the workers have been joined.
abbrev pub joined : Server → Server
joined s = log_pool "Handling shutdown request in main thread..." (
    log_pool "All %d worker threads joined successfully." (
      log_pool "Shutting down worker threads..."
        (record s { pool = record s.pool { is_shutdown = true } })))

pool_shutdown_quiet :
    (handle : Process) (n : ℕ) (r : Option Request) (s : Server)
    → s.pool.queue ≡ []
    → s.pool.is_shutdown ≡ false
    → pool_shutdown handle n r s ≡ (final_call handle r (joined s) >>= λ s₁. ok (success, s₁))
unfolding pool_shutdown
pool_shutdown_quiet handle n r s e up =
    rw
      (
        up,
        serve_queue_none handle n
            (log_pool "Shutting down worker threads..."
              (record s { pool = record s.pool { is_shutdown = true } }))
            e,
      )
      refl

-- The request of a shutdown goes to the handler, in the listener's thread.
pub pool_process-shutdown :
    (P : Server → Type 0) (handle : Process) (turns : Server → ℕ) (s : Server)
    → s.pool.queue ≡ []
    → s.pool.is_shutdown ≡ false
    → Returns (λ (_, s₁). P s₁) (handle shutdown_request (joined s))
    → Returns (λ (_, s₁). P s₁) (pool_process handle turns shutdown_request s)
unfolding pool_process final_call get_type
pool_process-shutdown P handle turns s e up h =
    rw (pool_shutdown_quiet handle (turns s) (some shutdown_request) s e up)
      (Returns-bind (Returns-bind h λ (_, s₁) p. returns p) λ s₁ p. returns p)

-- The destructor makes sure of a shutdown, and calls no handler; what comes of it is then up to the
-- deletion of the workers.
pub destroy_pool_quiet :
    {ds : List Descriptor} (handle : Process) (turns : Server → ℕ) (s : Server)
    → s.pool.queue ≡ []
    → Watches s.listener ds
    → (s' : Server) × ((phases : List Phase)
        → destroy_pool handle turns phases s ≡ (delete_workers phases >>= λ u. ok s'))
      × (s'.pool.is_shutdown ≡ true)
      × Watches s'.listener ds
      × (s'.closed ≡ s.closed)
unfolding destroy_pool
destroy_pool_quiet {ds} handle turns s e w =
    let (s', run, (shut, watched, closed)) = Returns-ok (by_flag s.pool.is_shutdown refl) in
    (s', (λ phases. rw run refl), shut, watched, closed)
  where
    by_flag :
        (b : Bool)
        → s.pool.is_shutdown ≡ b
        → Returns
            (λ s'. (s'.pool.is_shutdown ≡ true) × Watches s'.listener ds × (s'.closed ≡ s.closed))
            (if b then ok s else (pool_shutdown handle (turns s) none s >>= λ (_, s₁). ok s₁))
    by_flag true shut = returns (shut, w, refl)
    by_flag false up =
        rw (pool_shutdown_quiet handle (turns s) none s e up)
          (returns (refl, record { sane = w.sane; held = w.held }, refl))
