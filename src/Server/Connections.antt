-- ===== src/Server/Connections.antt =====
-- Connection::close of a connection that its server listens to.
use magicserver.Prelude.{
  ◌≤◌, ◌≡◌, ◌≢◌, refl, ap, ◌⊎◌, Bool, true, false, some, List, [], ◌∷◌, ◌++◌, pos, ltb_ℤ, ◌==ℤ◌,
  ne→==_false, eq→==, if◌then◌else◌, length, ok, ◌>>=◌, Returns, returns, Returns-bind,
}
use magicserver.Errors.{success, connection_no_socket}
use magicserver.Memory.{Ptr, null}
use magicserver.Listener.{Descriptor, Listener}
use magicserver.Listener.Removal.{Lacks, Watches, remove_descriptor-Watches}
use magicserver.Server.{
  Connection, Server, close_connection, load_connection, finish_close, server_remove,
}

-- A connection with a listener and a socket, whose descriptor stands between `pre` and `post`.
pub record Connected (s : Server) (p : Ptr) (c : Connection) (pre post : List Descriptor)
    : Type 0 where
  pub ne_null : p ≢ null
  pub object : s.connections p ≡ some c
  pub has_socket : (c.conn_socket ==ℤ pos 0) ≡ false
  pub attached : c.has_listener ≡ true
  pub descriptor : Descriptor
  pub numbered : (descriptor.fd ==ℤ c.conn_socket) ≡ true
  pub first : Lacks c.conn_socket pre
  pub alone : Lacks c.conn_socket post
  pub watched : Watches s.listener (pre ++ descriptor ∷ post)

-- Array::remove keeps what stands behind the descriptor.
abbrev pub Roomy : List Descriptor → List Descriptor → Type 0
Roomy pre post = (length pre ≤ length post) ⊎ (post ≡ [])

-- What is true of the server when a connection has been closed.
pub record Closed (s s' : Server) (c : Connection) (pre post : List Descriptor) : Type 0 where
  pub watched : Watches s'.listener (pre ++ post)
  pub closed_once : s'.closed ≡ s.closed ++ c.conn_socket ∷ []
  pub same_lock : s'.listener.thread_lock ≡ s.listener.thread_lock
  pub same_socket : s'.socket ≡ s.socket
  pub same_mask : s'.request_mask ≡ s.request_mask
  pub same_written : s'.written ≡ s.written

second :
    {A : Type 0} (a b : Bool) (x y z : A)
    → a ≡ false
    → b ≡ true
    → (if a then x else if b then y else z) ≡ y
second a b x y z ea eb = rw (ea, eb)

first_true : {A : Type 0} (a : Bool) (x y : A) → a ≡ true → (if a then x else y) ≡ x
first_true a x y e = rw e

pub close_step :
    (s : Server) (p : Ptr) (c : Connection)
    → p ≢ null
    → s.connections p ≡ some c
    → (c.conn_socket ==ℤ pos 0) ≡ false
    → c.has_listener ≡ true
    → close_connection p s
      ≡ (server_remove c.conn_socket s >>= λ (r, s₁). ok (r, finish_close p c r s₁))
unfolding close_connection load_connection
close_step s p c ne object has_socket attached =
    rw (ne→==_false p null ne, object) (second _ _ _ _ _ has_socket attached)

close_again :
    (s : Server) (p : Ptr) (c : Connection)
    → p ≢ null
    → s.connections p ≡ some c
    → c.conn_socket ≡ pos 0
    → close_connection p s ≡ ok (connection_no_socket, s)
unfolding close_connection load_connection ◌==ℤ◌
close_again s p c ne object gone =
    rw (ne→==_false p null ne, object) (first_true (c.conn_socket ==ℤ pos 0) _ _ (rw gone))

-- After a descriptor was removed, the rest of the server is as it was.
record Unlisted (s s₁ : Server) (ds : List Descriptor) : Type 0 where
  watched : Watches s₁.listener ds
  same : s₁ ≡ record s {
    listener = record s.listener {
      descriptors = s₁.listener.descriptors;
      storage = s₁.listener.storage;
    };
  }

finish_Closed :
    {s s₁ : Server} {pre post : List Descriptor} (p : Ptr) (c : Connection)
    → Unlisted s s₁ (pre ++ post)
    → Closed s (finish_close p c success s₁) c pre post
unfolding finish_close ltb_ℤ
finish_Closed p c u = record {
  watched = record { sane = u.watched.sane; held = u.watched.held };
  closed_once = ap (λ (t : Server). t.closed ++ c.conn_socket ∷ []) u.same;
  same_lock = ap (λ (t : Server). t.listener.thread_lock) u.same;
  same_socket = ap (λ (t : Server). t.socket) u.same;
  same_mask = ap (λ (t : Server). t.request_mask) u.same;
  same_written = ap (λ (t : Server). t.written) u.same;
}

finish_object :
    (s₁ : Server) (p : Ptr) (c : Connection)
    → (finish_close p c success s₁).connections p ≡ some (record c { conn_socket = pos 0 })
unfolding finish_close ltb_ℤ
finish_object s₁ p c = rw (eq→== p p refl)

module _ {s : Server} {p : Ptr} {c : Connection} {pre post : List Descriptor} where
  unlist :
      Connected s p c pre post
      → Roomy pre post
      → Returns
          (λ (r, s₁). (r ≡ success) × Unlisted s s₁ (pre ++ post))
          (server_remove c.conn_socket s)
  unlist k room =
      Returns-bind
        (remove_descriptor-Watches c.conn_socket pre k.descriptor post k.watched k.first k.numbered
          room)
        λ (r, l) (e, w, same). returns (
          e,
          record { watched = w; same = ap (λ (l' : Listener). record s { listener = l' }) same },
        )

  -- Connection::close of a connection that is listened to, with at least as many descriptors behind its
  -- own as before it, or none behind: it returns success, takes its descriptor out and keeps the
  -- others in their order, closes its socket once, and leaves the connection object without a
  -- socket, so that a second close is refused; the listener's lock is as before.
  pub close_connection-Closed :
      Connected s p c pre post
      → Roomy pre post
      → Returns
          (λ (r, s').
            (r ≡ success)
            × Closed s s' c pre post
            × (s'.connections p ≡ some (record c { conn_socket = pos 0 }))
            × (close_connection p s' ≡ ok (connection_no_socket, s')))
          (close_connection p s)
  close_connection-Closed k room =
      rw (close_step s p c k.ne_null k.object k.has_socket k.attached) (
        Returns-bind (unlist k room) λ (r, s₁) (e, u). returns (
          rw e (
            refl,
            finish_Closed p c u,
            finish_object s₁ p c,
            close_again _ p (record c { conn_socket = pos 0 }) k.ne_null (finish_object s₁ p c)
                refl,
          )))
