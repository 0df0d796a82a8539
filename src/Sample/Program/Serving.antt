-- ===== src/Sample/Program/Serving.antt =====
-- The listener loop of the programs when select keeps failing, before any connection, for a handler
-- that can be told of the shutdown.
use magicserver.Prelude.{
  ℕ, suc, ◌≡◌, refl, sym, ap, subst, ◌∙◌, ◌⊎◌, inl, inr, true, false, Option, none, some, arith,
  List, [], ◌∷◌, ◌++◌, replicate, ℤ, pos, ltb_ℤ, ◌==ℤ◌, ==ℤ_refl, if◌then◌else◌, Returns, returns,
  Returns-bind, Returns-mono, Returns-ok, append-nil,
}
use magicserver.Errors.{MsrvResult, success}
use magicserver.Memory.{null}
use magicserver.Listener.{Descriptor}
use magicserver.Listener.Removal.{Watches}
use magicserver.Listener.Listen.{Answer, failed, fd_setsize, beyond_set}
use magicserver.Listener.Listen.Ending.{listen-failed}
use magicserver.Server.{Protocol, Server}
use magicserver.Server.Bind.Laws.{Bound}
use magicserver.Server.Shutdown.{announce, shutdown}
use magicserver.Server.Shutdown.Alone.{shutdown_alone}
use magicserver.Sample.Arguments.{Exit, returned}
use magicserver.Server.{PoolState, new_pool_state}
use magicserver.Server.Events.{Process}
use Prim.Native.String.{String}
use magicserver.Sample.Program.{System, server_listener, serve}

abbrev pub own_descriptor : ℤ → Descriptor
own_descriptor socket = record { fd = socket; object = null }

-- On a server without a connection, whose handler has kept nothing: told of the shutdown, the handler
-- returns, and leaves no request.
abbrev pub CanBeTold : Process → Type 0
CanBeTold process =
    (s : Server) (d : Descriptor)
    → Watches s.listener (d ∷ [])
    → (d.fd ==ℤ s.socket) ≡ true
    → s.pool ≡ new_pool_state
    → Returns
        (λ (r, s₁).
          Watches s₁.listener (d ∷ [])
          × (s₁.socket ≡ s.socket)
          × (s₁.closed ≡ s.closed)
          × (s₁.pool.queue ≡ []))
        (announce process s)

-- After the shutdown.
abbrev Shut : ℤ → Server → Type 0
Shut socket s = (s.closed ≡ socket ∷ []) × (s.pool.queue ≡ [])

-- What the program returns, and what its server has closed, by the first call of bind that fails. A
-- socket that is not positive is not closed.
abbrev pub Ended : Option MsrvResult → ℤ → Exit → List ℤ → Type 0
Ended failure socket exit closed =
    (((e : MsrvResult) × (failure ≡ some e))
      × (exit ≡ returned (pos 1))
      × (closed ≡ (if ltb_ℤ (pos 0) socket then socket ∷ [] else [])))
    ⊎ ((failure ≡ none) × (exit ≡ returned (pos 0)) × (closed ≡ socket ∷ []))

-- A positive socket below FD_SETSIZE may be put into a set.
inside_set :
    (socket : ℤ)
    → ltb_ℤ (pos 0) socket ≡ true
    → ltb_ℤ socket fd_setsize ≡ true
    → beyond_set socket ≡ false
unfolding beyond_set ltb_ℤ
inside_set socket up low = ground arith

module _ (name : String) (process : Process) (can_be_told : CanBeTold process) where
  -- The shutdown of a server on this socket that has closed nothing, with no connection.
  shuts :
      (f : ℕ) (socket : ℤ) (s : Server)
      → Watches s.listener (own_descriptor socket ∷ [])
      → (s.socket ≡ socket) × (s.closed ≡ []) × (s.pool ≡ new_pool_state)
      → Returns
          (λ (_, s'). Watches s'.listener [] × Shut socket s')
          (shutdown process (suc (suc f)) s)
  shuts f socket s w (same, none_closed, kept) =
      let own : (socket ==ℤ s.socket) ≡ true =
        subst (λ n. (socket ==ℤ n) ≡ true) (sym same) (==ℤ_refl socket) in
      let ((r, s₁), e, (w₁, same₁, closed₁, queue₁)) =
        Returns-ok (can_be_told s (own_descriptor socket) w own kept) in
      Returns-mono
        (shutdown_alone process s r f e w₁ (subst (λ n. (socket ==ℤ n) ≡ true) (sym same₁) own))
        λ (q, s') (_, w', closed, _, pool). (
          w',
          (
            closed
                ∙ ap (λ l. l ++ s₁.socket ∷ []) (closed₁ ∙ none_closed)
                ∙ ap (λ n. n ∷ []) (same₁ ∙ same),
            ap (λ (k : PoolState). k.queue) pool ∙ queue₁,
          ),
        )

  -- Listening on the socket until select has failed too often.
  serve-failed :
      (f : ℕ) (system : System) (rest : List Answer) (socket : ℤ) (s : Server)
      → system.answers ≡ replicate 11 failed ++ rest
      → beyond_set socket ≡ false
      → Watches s.listener (own_descriptor socket ∷ [])
      → s.listener.shutdown_status ≡ false
      → (s.socket ≡ socket) × (s.closed ≡ []) × (s.pool ≡ new_pool_state)
      → Returns
          (λ (exit, s').
            (exit ≡ returned (pos 0))
            × Watches s'.listener []
            × (s'.closed ≡ socket ∷ [])
            × (s'.pool.queue ≡ []))
          (serve name process system (suc (suc f)) (success, s))
  unfolding serve ltb_ℤ
  serve-failed f system rest socket s fails inside w up p = rw fails (
      Returns-bind
        (listen-failed (server_listener process system.events (suc (suc f)))
          (own_descriptor socket ∷ []) [] (λ l t. refl) (inside, tt)
          (λ t. (t.socket ≡ socket) × (t.closed ≡ []) × (t.pool ≡ new_pool_state)) (Shut socket)
          (λ l t q. q) (λ l t q. q) (shuts f socket) (suc (suc f)) rest s w up p)
        λ (r, s', fds) (e, none_open, w', (closed, queue)).
          rw (e, none_open)
            (returns (
              refl,
              record { sane = w'.sane; held = w'.held },
              append-nil s'.closed ∙ closed,
              queue,
            )))

  -- Whatever bind has answered.
  pub serve_any :
      {failure : Option MsrvResult} (f : ℕ) (system : System) (rest : List Answer)
      (protocol : Protocol) (s₀ : Server) (bound : MsrvResult × Server)
      → system.answers ≡ replicate 11 failed ++ rest
      → ltb_ℤ system.sockets.sockfd fd_setsize ≡ true
      → s₀.listener.shutdown_status ≡ false
      → s₀.closed ≡ []
      → s₀.pool ≡ new_pool_state
      → Bound failure system.sockets protocol [] s₀ bound
      → Returns
          (λ (exit, s').
            Watches s'.listener []
            × (s'.pool.queue ≡ [])
            × Ended failure system.sockets.sockfd exit s'.closed)
          (serve name process system (suc (suc f)) bound)
  unfolding serve
  serve_any f system rest protocol s₀ (r, s) fails low up none_closed kept
        (inr (failed_call, e, u)) =
      rw e (
        returns (
          record { sane = u.watched.sane; held = u.watched.held },
          ap (λ (k : PoolState). k.queue) (u.same_pool ∙ kept),
          inl (
            (r, failed_call),
            refl,
            u.closed
                ∙ ap
                    (λ l.
                      if ltb_ℤ (pos 0) system.sockets.sockfd
                      then l ++ system.sockets.sockfd ∷ []
                      else l)
                    none_closed,
          ),
        ))
  serve_any f system rest protocol s₀ (r, s) fails low up none_closed kept
        (inl (none_fails, e, l)) =
      rw e (
        Returns-mono
          (serve-failed f system rest system.sockets.sockfd s fails
            (inside_set system.sockets.sockfd l.positive low) l.watched (l.same_status ∙ up)
            (l.socket, l.closed ∙ none_closed, l.same_pool ∙ kept))
          λ (exit, s') (e', w', closed, queue). (w', queue, inr (none_fails, e', closed)))
