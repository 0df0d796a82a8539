-- ===== src/Sample/Pooled/Failing.antt =====
-- The program with a pool when select keeps failing, before any connection.
use magicserver.Prelude.{
  ℕ, suc, ◌<◌, ◌≡◌, refl, sym, ap, subst, ◌∙◌, inl, inr, Bool-cases, true, false, none, some, List,
  [], ◌∷◌, ◌++◌, replicate, arith, ltb_ℤ, Returns, returns, Returns-mono, Returns-ok, Option,
  Outcome, out_of_fuel, ◌>>=◌, ok, fault, dangling, ◌≢◌,
}
use magicserver.Memory.Laws.{IsMemory}
use magicserver.Container.Array.Contents.{empty-IsArray}
use magicserver.Listener.{new_listener}
use magicserver.Listener.Removal.{Watches}
use magicserver.Listener.Listen.{Answer, failed, fd_setsize}
use magicserver.Request.{requested, shutdown_type}
use magicserver.Log.{destroy_log}
use magicserver.Log.Opening.{console, from_filename_stdout, destroy_log_stdout}
use magicserver.Server.{PoolState, new_pool_state, Server, new_server}
use magicserver.Errors.{MsrvResult}
use magicserver.Server.Bind.{bind}
use magicserver.Server.Bind.Laws.{first_failure, bind_all_or_nothing}
use magicserver.Server.Shutdown.{announce}
use magicserver.Worker.{
  Phase, testing, entering, asleep, pulling, handling, finished, delete_workers,
}
use magicserver.Worker.Handler.{pool_process, destroy_pool}
use magicserver.Worker.Handler.Quiet.{joined, pool_process-shutdown, destroy_pool_quiet}
use magicserver.Sample.Arguments.{TestArgs, Exit}
use magicserver.Sample.Program.{System, serve, handle, protocol_of}
use magicserver.Sample.Program.Serving.{Ended, CanBeTold, serve_any}
use magicserver.Sample.Program.Failing.{told}
use magicserver.Sample.Pooled.{start_pooled, late, unjoined, worker_main}

pooled_told :
    (f : ℕ) (system : System) (turns : Server → ℕ)
    → 1 < f
    → CanBeTold (pool_process (handle f system.host) turns)
unfolding announce
pooled_told f system turns fuel s d w own kept =
    let empty : s.pool.queue ≡ [] = ap (λ (k : PoolState). k.queue) kept in
    elim (Bool-cases (requested s.request_mask shutdown_type)) [
      | inl e ↦ rw e (
          pool_process-shutdown
            (λ s₁.
              Watches s₁.listener (d ∷ [])
              × (s₁.socket ≡ s.socket)
              × (s₁.closed ≡ s.closed)
              × (s₁.pool.queue ≡ []))
            (handle f system.host) turns s empty (ap (λ (k : PoolState). k.is_shutdown) kept)
            (Returns-mono
              (told f system (joined s) d (record { sane = w.sane; held = w.held }) own fuel)
              λ r (w', a, b, c). (w', a, b, ap (λ (k : PoolState). k.queue) c ∙ empty)))
      | inr e ↦ rw e (returns (w, refl, refl, empty))
    ]

new_pooled-Watches :
    (system : System) (args : TestArgs)
    → IsMemory system.memory
    → Watches (start_pooled system args).listener []
unfolding start_pooled new_server new_listener
new_pooled-Watches system args sane = record { sane = sane; held = empty-IsArray system.memory }

new_pooled_lem :
    (system : System) (args : TestArgs)
    → ((start_pooled system args).listener.shutdown_status ≡ false)
      × ((start_pooled system args).closed ≡ [])
      × ((start_pooled system args).pool ≡ new_pool_state)
unfolding start_pooled new_server new_listener
new_pooled_lem system args = (refl, refl, refl)

delete_finished : delete_workers (unjoined finished) ≡ ok tt
unfolding delete_workers
delete_finished = refl

delete_running : (w : Phase) → w ≢ finished → delete_workers (unjoined w) ≡ fault dangling
unfolding delete_workers
delete_running testing ne = refl
delete_running entering ne = refl
delete_running asleep ne = refl
delete_running pulling ne = refl
delete_running (handling r) ne = refl
delete_running finished ne = absurd (ne refl)

-- The log is closed behind the deletion.
log_closed :
    (r : Outcome (Unit {0})) (exit : Exit) (s : Server)
    → ((r >>= λ u. ok s) >>= λ s₁.
        ◌>>=◌ {B = Exit × Option Server} (destroy_log console) λ l. ok (exit, some s₁))
      ≡ (r >>= λ u. ok (exit, some s))
log_closed (ok u) exit s = rw destroy_log_stdout refl
log_closed (fault e) exit s = refl
log_closed out_of_fuel exit s = refl

-- The program from the results of its parts.
composed :
    (system : System) (turns : Server → ℕ) (f : ℕ) (args : TestArgs) (bound : MsrvResult × Server)
    (exit : Exit) (s s' : Server)
    → args.logfile ≡ none
    → bind (protocol_of args) 0 system.sockets (start_pooled system args) ≡ ok bound
    → serve "SMPLWRKR" (pool_process (handle f system.host) turns) system f bound ≡ ok (exit, s)
    → ((phases : List Phase)
        → destroy_pool late turns phases s ≡ (delete_workers phases >>= λ u. ok s'))
    → (w : Phase)
    → worker_main system turns w f args ≡ (delete_workers (unjoined w) >>= λ u. ok (exit, some s'))
unfolding worker_main ltb_ℤ
composed system turns f args bound exit s s' no_file run served deleted w = rw no_file (
    rw (from_filename_stdout system.opened) (
      rw run
        (rw served (rw (deleted (unjoined w)) (log_closed (delete_workers (unjoined w)) exit s')))))

-- The program up to the deletion of the workers.
deletes_last :
    (system : System) (turns : Server → ℕ) (f : ℕ) (rest : List Answer) (args : TestArgs)
    → IsMemory system.memory
    → ltb_ℤ system.sockets.sockfd fd_setsize ≡ true
    → system.answers ≡ replicate 11 failed ++ rest
    → args.logfile ≡ none
    → (exit : Exit) × (s' : Server) × ((w : Phase)
        → worker_main system turns w (suc (suc f)) args
          ≡ (delete_workers (unjoined w) >>= λ u. ok (exit, some s')))
      × (s'.pool.is_shutdown ≡ true)
      × Watches s'.listener []
      × Ended
          (first_failure (protocol_of args) 0 system.sockets)
          system.sockets.sockfd
          exit
          s'.closed
deletes_last system turns f rest args sane low fails no_file =
    let ((r, s), bound, b) = Returns-ok (
      bind_all_or_nothing {s = start_pooled system args} (protocol_of args) 0 system.sockets
        (new_pooled-Watches system args sane)) in
    let (up, none_closed, kept) = new_pooled_lem system args in
    let ((exit, s₁), served, (watched, queue, ends)) = Returns-ok (
      serve_any "SMPLWRKR" (pool_process (handle (suc (suc f)) system.host) turns)
        (pooled_told (suc (suc f)) system turns (omega arith)) f system rest (protocol_of args)
        (start_pooled system args) (r, s) fails low up none_closed kept b) in
    let (s₂, deleted, shut, w', closed) = destroy_pool_quiet late turns s₁ queue watched in
    (
      exit,
      s₂,
      composed system turns (suc (suc f)) args (r, s) exit s₁ s₂ no_file bound served deleted,
      shut,
      w',
      subst
          (λ l.
            Ended (first_failure (protocol_of args) 0 system.sockets) system.sockets.sockfd exit l)
          (sym closed) ends,
    )

-- The program with a log on standard output, in storage where nothing stands at addresses never
-- handed out, where what socket answers is below FD_SETSIZE and select fails eleven times in a row from
-- the start, the joins of the workers return, and there is fuel for two rounds or more, whatever the
-- workers do before and the other calls answer. If the thread of the worker at position 0, which is not
-- joined, has ended when its Worker is deleted, and the delete of the array of workers, which lacks its
-- brackets, frees it, the program ends, its server watches no descriptor any
-- more, and its pool is shut down: if one of the calls of bind fails, it returns 1, and has closed the
-- socket if that is positive, and nothing else; if none fails, it returns 0, and has closed the socket
-- once and nothing else. If that thread has not ended, it goes on with a deleted Worker.
pub worker_main-failed :
    (system : System) (turns : Server → ℕ) (w : Phase) (f : ℕ) (rest : List Answer)
    (args : TestArgs)
    → IsMemory system.memory
    → ltb_ℤ system.sockets.sockfd fd_setsize ≡ true
    → system.answers ≡ replicate 11 failed ++ rest
    → args.logfile ≡ none
    → w ≢ finished
    → Returns
        (λ (exit, server).
          (s' : Server) × (server ≡ some s')
          × (s'.pool.is_shutdown ≡ true)
          × Watches s'.listener []
          × Ended
              (first_failure (protocol_of args) 0 system.sockets)
              system.sockets.sockfd
              exit
              s'.closed)
        (worker_main system turns finished (suc (suc f)) args)
      × (worker_main system turns w (suc (suc f)) args ≡ fault dangling)
worker_main-failed system turns w f rest args sane low fails no_file running =
    let (exit, s', run, shut, w', ended) =
      deletes_last system turns f rest args sane low fails no_file in
    (
      rw (run finished) (rw delete_finished (returns (s', refl, shut, w', ended))),
      run w ∙ rw (delete_running w running) refl,
    )
