-- ===== src/Sample/Pooled.antt =====
-- examples/msrvsample_worker/src/sampleworker.cc: serverMain of the program that hands the requests to
-- the threads of a WorkerPool, which call the sample handler.
pub mod Failing
use magicserver.Prelude.{
  Option, none, some, ℕ, replicate, List, ◌∷◌, [], ◌++◌, pos, ltb_ℤ, if◌then◌else◌, Outcome, ok,
  fault, dangling, ◌>>=◌,
}
use magicserver.Log.{destroy_log}
use magicserver.Listener.{log_event}
use magicserver.Server.{Server, new_server}
use magicserver.Server.Bind.{bind}
use magicserver.Server.Events.{Process}
use magicserver.Worker.{Phase, finished}
use magicserver.Worker.Handler.{log_pool, pool_process, destroy_pool}
use magicserver.Sample.Arguments.{TestArgs, Exit, runtime_error}
use magicserver.Sample.Program.{
  System, first_messages, handle, open_program_log, protocol_of, serve,
}

-- WorkerPool workers (myHandler, log, 10); ServerListener myServer (workers, &log); The pool has the
-- init of RequestHandler, which does nothing.
pub start_pooled : System → TestArgs → Server
unfolding first_messages
start_pooled system args =
    let s = new_server system.memory in
    log_pool "Started %d worker threads successfully." (record s {
      listener = record s.listener {
        messages = first_messages "SMPLWRKR" args.daemonize system.daemonized;
      };
    })

-- The requests' listener is destroyed before the pool.
abbrev pub late : Process
late r s = fault dangling

-- The threads of the ten workers when ~WorkerPool deletes them, behind the shutdown: it has joined those
-- at the positions 1 to 9, which have ended, and not the one at position 0.
abbrev pub unjoined : Phase → List Phase
unjoined zero_phase = zero_phase ∷ replicate 9 finished

-- int serverMain (const TestArgs& args), with what `turns` says of the workers, and the phase of the
-- thread at position 0 when its Worker is deleted.
pub worker_main : System → (Server → ℕ) → Phase → ℕ → TestArgs → Outcome (Exit × Option Server)
unfolding start_pooled serve pool_process destroy_pool
worker_main system turns zero_phase f args = do
  (opened, log) ← open_program_log system args
  if ltb_ℤ opened (pos 0) then ok (runtime_error, none) else do
    bound ← bind (protocol_of args) 0 system.sockets (start_pooled system args)
    (exit, s) ← serve "SMPLWRKR" (pool_process (handle f system.host) turns) system f bound
    s₁ ← destroy_pool late turns (unjoined zero_phase) s
    _ ← destroy_log log
    ok (exit, some s₁)
