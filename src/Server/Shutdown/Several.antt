-- ===== src/Server/Shutdown/Several.antt =====
-- ServerListener::shutdown with two connections or more.
use magicserver.Prelude.{
  ℕ, suc, ◌≡◌, sym, subst, ltb_ℤ, Bool-cases, inl, inr, true, false, List, [], ◌∷◌, arith, pos,
  ◌==ℤ◌, ne→==_false, ok, fault, dangling, Returns, returns, Returns-bind, Returns-ok,
}
use magicserver.Errors.{MsrvResult}
use magicserver.Memory.{Ptr, null}
use magicserver.Listener.{Descriptor}
use magicserver.Listener.Removal.Stale.{IsStale, remove_descriptor-IsStale}
use magicserver.Server.{Connection, Server, close_connection, server_close, finish_close}
use magicserver.Server.Closing.{Connected-locked}
use magicserver.Server.Connections.{Connected, close_step}
use magicserver.Server.Events.{Process}
use magicserver.Server.Shutdown.{announce, close_all, shutdown}
use magicserver.Server.Shutdown.Walk.{conn_iter_first, conn_get_first, conn_next_stale, more_left}

finish_storage :
    (p : Ptr) (c : Connection) (r : MsrvResult) (s : Server)
    → (finish_close p c r s).listener.storage ≡ s.listener.storage
unfolding finish_close
finish_storage p c r s = elim (Bool-cases (ltb_ℤ r (pos 0))) [ inl e ↦ rw e | inr e ↦ rw e ]

module _ {s : Server} {p : Ptr} {c : Connection} {pre post : List Descriptor} where
  close_connection-IsStale :
      Connected s p c pre post
      → Returns
          (λ (r, s'). IsStale s.listener.descriptors s'.listener.storage)
          (close_connection p s)
  close_connection-IsStale k = rw (close_step s p c k.ne_null k.object k.has_socket k.attached) (
      Returns-bind
        (Returns-bind
          (remove_descriptor-IsStale c.conn_socket pre k.descriptor post k.watched k.first
            k.numbered)
          λ (r, l) st. returns st)
        λ (r, s') st.
          returns (subst (IsStale s.listener.descriptors) (sym (finish_storage p c r s')) st))

server_close-IsStale :
    {s : Server} {p : Ptr} {c : Connection} {pre post : List Descriptor}
    → Connected s p c pre post
    → Returns (λ (r, s'). IsStale s.listener.descriptors s'.listener.storage) (server_close p s)
unfolding server_close
server_close-IsStale {s} {p} k =
    rw (ne→==_false p null k.ne_null)
      (Returns-bind (close_connection-IsStale (Connected-locked k)) λ (r, s') st. returns st)

-- A server that watches its own socket first, then a connection `p`, and then another descriptor:
-- whatever the handler does on the shutdown request that leads to this state, shutdown closes the first
-- connection, and then reads the next descriptor from storage that closing it has freed.
pub shutdown_several :
    {s₁ : Server} {p : Ptr} {c : Connection} {d e : Descriptor} {rest : List Descriptor}
    (process : Process) (s : Server) (result : MsrvResult) (f : ℕ)
    → announce process s ≡ ok (result, s₁)
    → (k : Connected s₁ p c (d ∷ []) (e ∷ rest)) → k.descriptor.object ≡ p
    → (d.fd ==ℤ s₁.socket) ≡ true
    → (k.descriptor.fd ==ℤ s₁.socket) ≡ false
    → shutdown process (suc (suc f)) s ≡ fault dangling
unfolding shutdown close_all
shutdown_several {s₁} {p} process s result f told k object own other =
    let (t, closed, stale) = Returns-ok (server_close-IsStale k) in
    rw (told, conn_iter_first f s₁ k.watched own other)
      (rw (more_left 1 k.watched.held (omega arith), close_all)
        (rw (
          conn_get_first s₁ k.watched,
          object,
          closed,
          conn_next_stale (suc f) t.1 k.watched.held stale,
        )))
