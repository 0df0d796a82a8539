-- ===== src/Worker/Handler.antt =====
-- libmsrv/src/msrvworker.cc: a WorkerPool as the RequestHandler of a ServerListener, as the listener's
-- thread sees it. A worker's call of the pool's handler is one step, and a number says how many such
-- steps come before a call goes on. The joins of a shutdown are taken to return; the modules beside
-- this one show when they do.
pub mod Quiet
use Prim.Native.String.{String}
use magicserver.Prelude.{
  ℕ, zero, suc, ◌==◌, true, Option, none, some, List, [], ◌∷◌, ◌++◌, if◌then◌else◌, Outcome, ok,
  ◌>>=◌,
}
use magicserver.Errors.{MsrvResult, success, repeat_shutdown_request}
use magicserver.Listener.{log_event}
use magicserver.Request.{Request, get_type, shutdown_type}
use magicserver.Server.{Server, info}
use magicserver.Server.Events.{Process}
use magicserver.Worker.{Phase, delete_workers}

-- mrLog.message ("WORKER", Log::Info, 0, ...)
abbrev pub log_pool : String → Server → Server
log_pool text s = record s {
  listener =
      log_event
        (record { modulename = "WORKER"; fatality = info; errno = success; text = some text })
        s.listener;
}

-- `n` times a worker pulls a request, if there is one, and calls the handler.
pub serve_queue : Process → ℕ → Server → Outcome Server
serve_queue handle zero s = ok s
serve_queue handle (suc n) s = elim s.pool.queue [
  | [] ↦ ok s
  | r ∷ rest ↦ do
    (_, s₁) ← handle r (record s { pool = record s.pool { queue = rest } })
    serve_queue handle n s₁
]

-- The final request, in the listener's thread.
pub final_call : Process → Option Request → Server → Outcome Server
final_call handle none s = ok s
final_call handle (some r) s = do (_, s₁) ← handle r s; ok s₁

-- MSrvResult WorkerPool::shutdown (Request* pRequest)
pub pool_shutdown : Process → ℕ → Option Request → Server → Outcome (MsrvResult × Server)
unfolding serve_queue final_call
pool_shutdown handle n r s = if s.pool.is_shutdown then ok (repeat_shutdown_request, s) else do
  s₁ ← serve_queue handle n (
      log_pool "Shutting down worker threads..."
        (record s { pool = record s.pool { is_shutdown = true } }))
  s₂ ← final_call handle r (
      log_pool "Handling shutdown request in main thread..."
        (log_pool "All %d worker threads joined successfully." s₁))
  ok (success, s₂)

-- MSrvResult WorkerPool::process (Request* pRequest)
unfoldable pub pool_process : Process → (Server → ℕ) → Process
unfolding pool_shutdown serve_queue get_type
pool_process handle turns r s =
    if get_type r == shutdown_type then pool_shutdown handle (turns s) (some r) s else do
      s₁ ←
          serve_queue handle (turns s)
            (record s { pool = record s.pool { queue = s.pool.queue ++ r ∷ [] } })
      ok (success, s₁)

-- WorkerPool::~WorkerPool, where the threads of the workers are in these phases when their Workers are
-- deleted. The array of their addresses is deleted without the brackets that C++ asks for; that is
-- taken to free it.
unfoldable pub destroy_pool : Process → (Server → ℕ) → List Phase → Server → Outcome Server
unfolding pool_shutdown delete_workers
destroy_pool handle turns phases s = do
  s₁ ←
      if s.pool.is_shutdown then ok s else do (_, s₂) ← pool_shutdown handle (turns s) none s; ok s₂
  _ ← delete_workers phases
  ok s₁
