-- ===== src/Server/Events/Lost.antt =====
-- The end of a stream, with a handler that leaves the switchboard of RequestHandler as it is.
use magicserver.Prelude.{
  ℕ, ◌≡◌, ◌≢◌, refl, ◌∙◌, true, none, List, [], ◌∷◌, ◌++◌, ℤ, pos, ne→==_false, eq→==, ok, ◌>>=◌,
  Returns, returns, Returns-bind, Returns-ok,
}
use Prim.Native.String.{String}
use magicserver.Errors.{success}
use magicserver.Memory.{Ptr, null}
use magicserver.Listener.{Descriptor}
use magicserver.Listener.Removal.{Lacks, remove_descriptor-absent}
use magicserver.Request.{connection_lost, requested, connection_lost_type, process, idle_handlers}
use magicserver.Request.Dispatch.{process-method}
use magicserver.Server.{
  Connection, Server, info, log_server, set_connection, delete_request, delete_connection,
  close_connection,
}
use magicserver.Server.Connections.{Connected, Closed, Roomy, close_connection-Closed}
use magicserver.Server.Events.{Process, lost_event, send}

-- A handler that keeps RequestHandler::process and all its methods.
abbrev pub default_process : (ℕ → Server → Server) → Process
default_process warn = process idle_handlers warn delete_request

Lacks-append : (fd : ℤ) (ds es : List Descriptor) → Lacks fd ds → Lacks fd es → Lacks fd (ds ++ es)
Lacks-append fd [] es a b = b
Lacks-append fd (d ∷ ds) es a b = (a.0, Lacks-append fd ds es a.1 b)

destroyed :
    (warn : ℕ → Server → Server) (s : Server) (p : Ptr) (fd : ℤ)
    → p ≢ null
    → default_process warn (connection_lost fd p) s
      ≡ (close_connection p s >>= λ (r, s₁). ok (set_connection p none s₁)) >>= λ s₂. ok (pos 0, s₂)
unfolding delete_request delete_connection
destroyed warn s p fd ne =
    process-method idle_handlers warn delete_request s (connection_lost fd p) (λ t. cc)
    ∙ rw (ne→==_false p null ne)

module _ {s : Server} {p : Ptr} {c : Connection} {pre post : List Descriptor} where
  -- The handler destroys the connection.
  told :
      (warn : ℕ → Server → Server)
      → Connected s p c pre post
      → Roomy pre post
      → requested s.request_mask connection_lost_type ≡ true
      → Returns
          (λ s₁. Closed s s₁ c pre post × (s₁.connections p ≡ none))
          (send
            (default_process warn)
            none
            connection_lost_type
            (connection_lost c.conn_socket p)
            s)
  unfolding send
  told warn k room mask =
      let ((r, s₁), e, (_, d, _, _)) = Returns-ok (close_connection-Closed k room) in
      rw (mask, destroyed warn s p c.conn_socket k.ne_null, e)
        (returns (
          record {
            watched = d.watched;
            closed_once = d.closed_once;
            same_lock = d.same_lock;
            same_socket = d.same_socket;
            same_mask = d.same_mask;
            same_written = d.same_written;
          },
          rw (eq→== p p refl),
        ))

  Connected-log :
      (text : String)
      → Connected s p c pre post
      → Connected (log_server info success text s) p c pre post
  Connected-log text k = record {
    ne_null = k.ne_null;
    object = k.object;
    has_socket = k.has_socket;
    attached = k.attached;
    descriptor = k.descriptor;
    numbered = k.numbered;
    first = k.first;
    alone = k.alone;
    watched = record { sane = k.watched.sane; held = k.watched.held };
  }

module _ {s : Server} {p : Ptr} {c : Connection} {pre post : List Descriptor} where
  -- At the end of the stream of a connection that is listened to, with at least as many descriptors
  -- behind its own as before it, or none behind, when lost connections are asked for and the handler
  -- keeps the methods of RequestHandler: the connection's socket is closed once and nothing else, its
  -- descriptor is taken out and the others are kept in their order, its object is destroyed, and the
  -- lock, the server's own socket, its mask and what it has written are as before.
  pub lost_event-Closed :
      (warn : ℕ → Server → Server)
      → Connected s p c pre post
      → Roomy pre post
      → requested s.request_mask connection_lost_type ≡ true
      → Returns
          (λ s'. Closed s s' c pre post × (s'.connections p ≡ none))
          (lost_event (default_process warn) none c.conn_socket p s)
  unfolding lost_event
  lost_event-Closed warn k room mask =
      Returns-bind (told warn (Connected-log _ k) room mask) λ s₁ (d, gone).
        rw
          (remove_descriptor-absent c.conn_socket d.watched
            (Lacks-append c.conn_socket pre post k.first k.alone))
          (returns (
            record {
              watched = d.watched;
              closed_once = d.closed_once;
              same_lock = d.same_lock;
              same_socket = d.same_socket;
              same_mask = d.same_mask;
              same_written = d.same_written;
            },
            gone,
          ))
