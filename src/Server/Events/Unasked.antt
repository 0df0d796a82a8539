-- ===== src/Server/Events/Unasked.antt =====
-- The end of a connection's stream, where lost connections are not asked for.
use magicserver.Prelude.{
  ◌≡◌, refl, false, some, List, ◌++◌, Option, ℤ, ℕ, Returns, returns, Returns-bind,
}
use magicserver.Memory.{Ptr}
use magicserver.Listener.{Descriptor}
use magicserver.Listener.Removal.{Watches, remove_descriptor-Watches}
use magicserver.Request.{requested, connection_lost_type}
use magicserver.Server.{Connection, Server}
use magicserver.Server.Connections.{Connected, Roomy}
use magicserver.Server.Events.{Process, send, lost_event}

-- At the end of the stream of a connection, with at least as many descriptors behind its own as
-- before it, or none behind, when lost connections are not asked for: whatever the handler and the
-- factory are, the descriptor is gone from the listener, but no socket is closed, and the
-- connection object stays as it was, with its socket.
pub lost_event_unasked :
    {s : Server} {p : Ptr} {c : Connection} {pre post : List Descriptor} (process : Process)
    (factory : Option (ℤ → ℕ → Server → Ptr × Server))
    → Connected s p c pre post
    → Roomy pre post
    → requested s.request_mask connection_lost_type ≡ false
    → Returns
        (λ s'.
          Watches s'.listener (pre ++ post) × (s'.closed ≡ s.closed) × (s'.connections p ≡ some c))
        (lost_event process factory c.conn_socket p s)
unfolding lost_event send
lost_event_unasked {s} {p} {c} {pre} {post} process factory k room mask = rw mask (
    Returns-bind
      (Returns-bind
        (remove_descriptor-Watches c.conn_socket pre k.descriptor post
          (record { sane = k.watched.sane; held = k.watched.held }) k.first k.numbered room)
        λ (r, l) (_, w, _). returns (w, refl, k.object))
      λ (r, s') h. returns h)
