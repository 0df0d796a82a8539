-- ===== src/Sample/Program/Failing.antt =====
-- The program when select keeps failing, before any connection.
use magicserver.Prelude.{
  ℕ, suc, ◌<◌, ◌≡◌, refl, ap, ◌∙◌, inl, inr, Bool-cases, true, false, none, some, List, [], ◌∷◌,
  ◌++◌, replicate, arith, ltb_ℤ, ◌==ℤ◌, Returns, returns, Returns-bind, Returns-mono,
}
use magicserver.Memory.Laws.{IsMemory}
use magicserver.Container.Array.Contents.{empty-IsArray}
use magicserver.Listener.{new_listener, Descriptor}
use magicserver.Listener.Removal.{Watches}
use magicserver.Listener.Listen.{Answer, failed, fd_setsize}
use magicserver.Request.{requested, shutdown_type, shutdown_request}
use magicserver.Request.Dispatch.{process-method}
use magicserver.Log.Opening.{from_filename_stdout, destroy_log_stdout}
use magicserver.Server.{set_request_mask, Server, new_server, delete_request}
use magicserver.Server.Bind.Laws.{first_failure, bind_all_or_nothing}
use magicserver.Server.Shutdown.{announce}
use magicserver.Sample.Handler.{my_handler, init}
use magicserver.Sample.Handler.Relay.{shutdown_request_lem}
use magicserver.Sample.Arguments.{TestArgs}
use magicserver.Server.{PoolState, new_pool_state}
use magicserver.Sample.Program.Serving.{Ended, CanBeTold, serve_any}
use magicserver.Sample.Program.{
  protocol_of, System, handle, log_unhandled, start_server, server_main,
}

-- What the sample handler does when it is told of the shutdown, with no connection.
pub told :
    (f : ℕ) (system : System) (s : Server) (d : Descriptor)
    → Watches s.listener (d ∷ [])
    → (d.fd ==ℤ s.socket) ≡ true
    → 1 < f
    → Returns
        (λ (r, s₁).
          Watches s₁.listener (d ∷ [])
          × (s₁.socket ≡ s.socket)
          × (s₁.closed ≡ s.closed)
          × (s₁.pool ≡ s.pool))
        (handle f system.host shutdown_request s)
unfolding delete_request
told f system s d w own fuel =
    rw
      (process-method (my_handler f system.host) log_unhandled delete_request s shutdown_request
        (λ t. cc))
      (rw (shutdown_request_lem [] s w own tt f fuel)
        (returns (record { sane = w.sane; held = w.held }, refl, refl, refl)))

sample_told : (f : ℕ) (system : System) → 1 < f → CanBeTold (handle f system.host)
unfolding announce
sample_told f system fuel s d w own kept =
    elim (Bool-cases (requested s.request_mask shutdown_type)) [
      | inl e ↦ rw e (
          Returns-mono (told f system s d w own fuel)
            λ r (w', a, b, c). (w', a, b, ap (λ (k : PoolState). k.queue) (c ∙ kept)))
      | inr e ↦ rw e (returns (w, refl, refl, ap (λ (k : PoolState). k.queue) kept))
    ]

-- A server that has just been made.
pub new_server-Watches :
    (system : System) (args : TestArgs)
    → IsMemory system.memory
    → Watches (start_server system args).listener []
unfolding start_server new_server new_listener init set_request_mask
new_server-Watches system args sane = record { sane = sane; held = empty-IsArray system.memory }

pub new_server_lem :
    (system : System) (args : TestArgs)
    → ((start_server system args).listener.shutdown_status ≡ false)
      × ((start_server system args).closed ≡ [])
      × ((start_server system args).pool ≡ new_pool_state)
unfolding start_server new_server new_listener init set_request_mask
new_server_lem system args = (refl, refl, refl)

-- The program with a log on standard output, in storage where nothing stands at addresses never
-- handed out, where what socket answers is below FD_SETSIZE and select fails eleven times in a row from
-- the start: whatever the other calls answer, it ends, with fuel for two rounds or more, and its server
-- watches no descriptor any more. If one of the calls of bind fails, it returns 1, and has closed the
-- socket if that is positive, and nothing else; a socket that is not positive counts as a failure and is
-- not closed, even if it is 0. If none fails, it returns 0, and has closed the socket once and nothing
-- else.
pub server_main-failed :
    (system : System) (f : ℕ) (rest : List Answer) (args : TestArgs)
    → IsMemory system.memory
    → ltb_ℤ system.sockets.sockfd fd_setsize ≡ true
    → system.answers ≡ replicate 11 failed ++ rest
    → args.logfile ≡ none
    → Returns
        (λ (exit, server).
          (s' : Server) × (server ≡ some s')
          × Watches s'.listener []
          × Ended
              (first_failure (protocol_of args) 0 system.sockets)
              system.sockets.sockfd
              exit
              s'.closed)
        (server_main system (suc (suc f)) args)
unfolding server_main ltb_ℤ
server_main-failed system f rest args sane inside fails no_file =
    let (up, none_closed, kept) = new_server_lem system args in
    rw (no_file, server_main)
      (rw (from_filename_stdout system.opened) (
        Returns-bind
          (bind_all_or_nothing {s = start_server system args} (protocol_of args) 0 system.sockets
            (new_server-Watches system args sane))
          λ (r, s) b.
            Returns-bind
              (serve_any "SMPLLIST" (handle (suc (suc f)) system.host)
                (sample_told (suc (suc f)) system (omega arith)) f system rest (protocol_of args)
                (start_server system args) (r, s) fails inside up none_closed kept b)
              λ (exit, s') h. rw destroy_log_stdout (returns (s', refl, h.0, h.2))))
