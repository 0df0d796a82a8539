-- ===== src/Server/Closing.antt =====
-- ServerListener::close, and Connection::close without a listener.
use magicserver.Prelude.{
  ◌≡◌, ◌≢◌, refl, ap, false, some, List, [], ◌∷◌, ◌++◌, pos, ◌==ℤ◌, ne→==_false, fault,
  null_pointer, Returns, returns, Returns-bind,
}
use magicserver.Errors.{success}
use magicserver.Lock.{lock}
use magicserver.Memory.{Ptr, null}
use magicserver.Listener.{Descriptor}
use magicserver.Listener.Removal.{Watches}
use magicserver.Server.{Connection, Server, close_connection, load_connection, server_close}
use magicserver.Server.Connections.{Connected, Roomy, close_connection-Closed}

abbrev pub locked : Server → Server
locked s = record s { listener = record s.listener { thread_lock = lock s.listener.thread_lock } }

pub Connected-locked :
    {s : Server} {p : Ptr} {c : Connection} {pre post : List Descriptor}
    → Connected s p c pre post
    → Connected (locked s) p c pre post
Connected-locked k = record {
  ne_null = k.ne_null;
  object = k.object;
  has_socket = k.has_socket;
  attached = k.attached;
  descriptor = k.descriptor;
  numbered = k.numbered;
  first = k.first;
  alone = k.alone;
  watched = record { sane = k.watched.sane; held = k.watched.held };
}

-- ServerListener::close of a connection that is listened to closes its socket, takes its descriptor
-- out, keeps the server's own socket, writes nothing and returns success, but calls lock () twice: the
-- thread that called it then holds the lock two times more than before.
pub server_close-lock :
    {s : Server} {p : Ptr} {c : Connection} {pre post : List Descriptor}
    → Connected s p c pre post
    → Roomy pre post
    → Returns
        (λ (r, s').
          (r ≡ success)
          × Watches s'.listener (pre ++ post)
          × (s'.closed ≡ s.closed ++ c.conn_socket ∷ [])
          × (s'.socket ≡ s.socket)
          × (s'.listener.thread_lock ≡ lock (lock s.listener.thread_lock))
          × (s'.written ≡ s.written))
        (server_close p s)
unfolding server_close
server_close-lock {s} {p} k room = rw (ne→==_false p null k.ne_null) (
    Returns-bind (close_connection-Closed (Connected-locked k) room) λ (r, s') (_, d, _, _).
      returns (
        refl,
        record { sane = d.watched.sane; held = d.watched.held },
        d.closed_once,
        d.same_socket,
        ap lock d.same_lock,
        d.same_written,
      ))

-- Connection::close takes a missing listener for no fatal error, and then writes its last message
-- through it: whatever the socket of such a connection, unless it has none, it dereferences NULL.
pub close_unattached :
    (s : Server) (p : Ptr) (c : Connection)
    → p ≢ null
    → s.connections p ≡ some c
    → (c.conn_socket ==ℤ pos 0) ≡ false
    → c.has_listener ≡ false
    → close_connection p s ≡ fault null_pointer
unfolding close_connection load_connection
close_unattached s p c ne object has_socket detached =
    rw (ne→==_false p null ne, object) (rw (has_socket, detached))
