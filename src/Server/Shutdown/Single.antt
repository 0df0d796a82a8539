-- ===== src/Server/Shutdown/Single.antt =====
-- ServerListener::shutdown with one connection.
use magicserver.Prelude.{
  ℕ, suc, ◌≡◌, refl, ap, ◌∙◌, inr, true, false, [], ◌∷◌, ◌++◌, append_assoc, arith, ◌==ℤ◌, ok,
  ◌>>=◌, Returns, returns, Returns-bind, Returns-ok,
}
use magicserver.Errors.{MsrvResult}
use magicserver.Lock.{lock}
use magicserver.Memory.{Ptr}
use magicserver.Container.Array.{Iterator, exhausted}
use magicserver.Listener.{Descriptor, Listener}
use magicserver.Listener.Removal.{Watches, remove_descriptor-Watches}
use magicserver.Server.{Connection, Server, close_fd, server_remove, server_close}
use magicserver.Server.Closing.{server_close-lock}
use magicserver.Server.Connections.{Connected}
use magicserver.Server.Events.{Process}
use magicserver.Server.Shutdown.{announce, close_all, conn_get, conn_next, shutdown}
use magicserver.Server.Shutdown.Walk.{
  iterator, conn_iter_first, conn_get_first, conn_next_end, more_left, none_left,
}

pub close_all_end :
    (f : ℕ) (it : Iterator) (s : Server) → exhausted it ≡ true → close_all (suc f) it s ≡ ok s
unfolding close_all
close_all_end f it s done = rw (done, close_all)

close_all_step :
    (f : ℕ) (it it' : Iterator) (s t : Server) (p : Ptr) (r : MsrvResult)
    → exhausted it ≡ false
    → conn_get it s ≡ ok p
    → server_close p s ≡ ok (r, t)
    → conn_next (suc f) it t ≡ ok it'
    → close_all (suc f) it s ≡ close_all f it' t
unfolding close_all
close_all_step f it it' s t p r more got closed next_one =
    rw (more, close_all) (rw (got, ◌>>=◌) (rw (closed, ◌>>=◌) (rw (next_one, ◌>>=◌) refl)))

-- The server's own socket is closed and taken out.
pub own_socket :
    {d : Descriptor} (s : Server)
    → Watches s.listener (d ∷ [])
    → (d.fd ==ℤ s.socket) ≡ true
    → Returns
        (λ (r, s').
          Watches s'.listener []
          × (s'.closed ≡ s.closed ++ s.socket ∷ [])
          × (s'.listener.thread_lock ≡ s.listener.thread_lock)
          × (s'.pool ≡ s.pool)
          × (s'.written ≡ s.written))
        (server_remove s.socket (close_fd s.socket s))
own_socket {d} s w own =
    Returns-bind (remove_descriptor-Watches s.socket [] d [] w tt own (inr refl))
      λ (r, l) (_, w', same).
        returns (w', refl, ap (λ (k : Listener). k.thread_lock) same, refl, refl)

-- With one connection, whose descriptor stands behind that of the server's own socket, once the
-- handler has been told: shutdown returns the handler's result, has closed the connection's socket and
-- then its own, each once, watches no descriptor any more and has written nothing more; but its lock
-- is held twice more.
pub shutdown_single :
    {s₁ : Server} {p : Ptr} {c : Connection} {d : Descriptor} (process : Process) (s : Server)
    (result : MsrvResult) (f : ℕ)
    → announce process s ≡ ok (result, s₁)
    → (k : Connected s₁ p c (d ∷ []) []) → k.descriptor.object ≡ p
    → (d.fd ==ℤ s₁.socket) ≡ true
    → (k.descriptor.fd ==ℤ s₁.socket) ≡ false
    → Returns
        (λ (r, s').
          (r ≡ result)
          × Watches s'.listener []
          × (s'.closed ≡ s₁.closed ++ c.conn_socket ∷ s₁.socket ∷ [])
          × (s'.listener.thread_lock ≡ lock (lock s₁.listener.thread_lock))
          × (s'.written ≡ s₁.written))
        (shutdown process (suc (suc f)) s)
unfolding shutdown
shutdown_single {s₁} {p} {c} {d} process s result f told k object own other =
    let ((r, t), run, (_, w, closed, socket, locked, written)) =
      Returns-ok (server_close-lock k (inr refl)) in
    let walked : close_all (suc (suc f)) (iterator 1 s₁.listener.descriptors) s₁ ≡ ok t =
      close_all_step (suc f) _ _ s₁ t p r (more_left 1 k.watched.held (omega arith))
        (conn_get_first s₁ k.watched ∙ ap ok object) run (conn_next_end (suc f) t k.watched.held)
      ∙ close_all_end f _ t (none_left 2 k.watched.held (omega arith)) in
    rw (told, conn_iter_first f s₁ k.watched own other, walked)
      (Returns-bind (own_socket t w (ap (λ n. d.fd ==ℤ n) socket ∙ own))
        λ (q, s') (w', closed', locked', _, written'). returns (
          refl,
          w',
          closed'
              ∙ ap (λ l. l ++ t.socket ∷ []) closed
              ∙ append_assoc s₁.closed (c.conn_socket ∷ []) (t.socket ∷ [])
              ∙ ap (λ n. s₁.closed ++ c.conn_socket ∷ n ∷ []) socket,
          locked' ∙ locked,
          written' ∙ written,
        ))
