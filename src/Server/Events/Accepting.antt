-- ===== src/Server/Events/Accepting.antt =====
-- ServerListener::accept of a new connection, and its end.

use magicserver.Prelude.{
  ℕ, suc, ◌≡◌, ◌≢◌, refl, sym, ap, subst, ◌∙◌, inl, inr, true, false, none, some, List, [], ◌∷◌,
  ◌++◌, arith, ℤ, pos, ltb_ℤ, ◌==ℤ◌, ==ℤ_refl, ne→==_false, eq→==, Bool-cases, ok, ◌>>=◌, Returns,
  returns, Returns-bind, Returns-mono, Returns-ok,
}
use magicserver.Errors.{MsrvResult, success}
use magicserver.Memory.{Ptr}
use magicserver.Container.Array.Add.{add-append}
use magicserver.Listener.{Descriptor}
use magicserver.Listener.Removal.{Lacks, Watches}
use magicserver.Request.{
  Request, new_connection, requested, new_connection_type, connection_lost_type, idle_handlers,
}
use magicserver.Request.Dispatch.{process-method}
use magicserver.Server.{Connection, Server, tcp, info, log_server, delete_request}
use magicserver.Server.Connections.{Connected, Closed}
use magicserver.Server.Events.{
  ReadResult, is_tcp, Process, accept, descriptor_event, send, produce, make_connection,
  add_descriptor, lost_event,
}
use magicserver.Server.Events.Lost.{default_process, lost_event-Closed}

-- The connection object that accept makes without a factory.
abbrev pub connected : ℤ → ℕ → Connection
connected fd address = record { conn_socket = fd; has_listener = true; address = address }

-- The server before the handler is told.
pub record Accepted (s s' : Server) (fd : ℤ) (address : ℕ) (ds : List Descriptor) : Type 0 where
  pub watched : Watches s'.listener (ds ++ record { fd = fd; object = suc s.last_connection } ∷ [])
  pub object : s'.connections (suc s.last_connection) ≡ some (connected fd address)
  pub others : (q : Ptr) → q ≢ suc s.last_connection → s'.connections q ≡ s.connections q
  pub same_lock : s'.listener.thread_lock ≡ s.listener.thread_lock
  pub same_status : s'.listener.shutdown_status ≡ s.listener.shutdown_status
  pub same_closed : s'.closed ≡ s.closed
  pub same_mask : s'.request_mask ≡ s.request_mask
  pub same_written : s'.written ≡ s.written
  pub same_socket : s'.socket ≡ s.socket
  pub same_protocol : s'.protocol ≡ s.protocol

add_descriptor-Watches :
    {s : Server} {ds : List Descriptor} (fd : ℤ) (p : Ptr)
    → Watches s.listener ds
    → Returns
        (λ s'.
          Watches s'.listener (ds ++ record { fd = fd; object = p } ∷ [])
          × (s' ≡ record s {
            listener = record s.listener {
              descriptors = s'.listener.descriptors;
              storage = s'.listener.storage;
            };
          }))
        (add_descriptor fd p s)
unfolding add_descriptor
add_descriptor-Watches fd p w =
    Returns-bind (add-append _ w.sane w.held)
      λ (r, a, m) (_, is, _, replaced). returns (record { sane = replaced.sane; held = is }, refl)

-- Without a factory, accept of a socket that the system gives makes a connection object for it at a
-- new address, adds a descriptor with both behind the others, and then sends the handler a request on
-- it; it changes no other connection, closes nothing and leaves the lock as it was. Its result is
-- success, whatever the handler's is.
pub accept_lem :
    {s : Server} {ds : List Descriptor} (process : Process) (fd : ℤ) (address : ℕ)
    → Watches s.listener ds
    → ltb_ℤ fd (pos 0) ≡ false
    → (s' : Server) × Accepted s s' fd address ds
      × (accept process none fd address s ≡ (
          send process none new_connection_type (new_connection fd (suc s.last_connection)) s'
          >>= λ s₃. ok (success, s₃)))
unfolding accept produce make_connection
accept_lem {s} {ds} process fd address w valid =
    let (s', e, (w', same)) = Returns-ok (
      add_descriptor-Watches
        {s = (make_connection fd address
          (log_server info success "Accepted connection from %d.%d.%d.%d" s)).1}
        fd (suc s.last_connection) (record { sane = w.sane; held = w.held })) in
    (
      s',
      record {
        watched = w';
        object =
            ap (λ (t : Server). t.connections (suc s.last_connection)) same
            ∙ rw (eq→== (suc s.last_connection) (suc s.last_connection) refl);
        others = λ q ne.
            ap (λ (t : Server). t.connections q) same
            ∙ rw (ne→==_false (suc s.last_connection) q (λ d. ne (sym d)));
        same_lock = ap (λ (t : Server). t.listener.thread_lock) same;
        same_status = ap (λ (t : Server). t.listener.shutdown_status) same;
        same_closed = ap (λ (t : Server). t.closed) same;
        same_mask = ap (λ (t : Server). t.request_mask) same;
        same_written = ap (λ (t : Server). t.written) same;
        same_socket = ap (λ (t : Server). t.socket) same;
        same_protocol = ap (λ (t : Server). t.protocol) same;
      },
      rw (valid, e),
    )

-- The event of the server's own socket.
pub descriptor_event-accept :
    {r : MsrvResult} {s₂ : Server} (process : Process) (fd : ℤ) (address : ℕ)
    (reads : List ReadResult) (own : ℤ) (p : Ptr) (s : Server)
    → (own ==ℤ s.socket) ≡ true
    → s.protocol ≡ tcp
    → accept process none fd address s ≡ ok (r, s₂)
    → descriptor_event process none fd address reads own p s ≡ ok (success, s₂)
unfolding descriptor_event
descriptor_event-accept process fd address reads own p s is_own speaks run =
    let stream : is_tcp s.protocol ≡ true = subst (λ q. is_tcp q ≡ true) (sym speaks) refl in
    rw (is_own, stream) (rw run)

-- A request that the mask asks for goes to the handler.
pub send_lem :
    {s₁ : Server} (process : Process) (type : ℕ) (r : Request) (s : Server) (result : MsrvResult)
    → requested s.request_mask type ≡ true
    → process r s ≡ ok (result, s₁)
    → send process none type r s ≡ ok s₁
unfolding send
send_lem process type r s result mask run = rw (mask, run)

-- A handler that keeps the methods of RequestHandler leaves the server as it is.
send_idle :
    (warn : ℕ → Server → Server) (fd : ℤ) (p : Ptr) (s : Server)
    → send (default_process warn) none new_connection_type (new_connection fd p) s ≡ ok s
unfolding send delete_request
send_idle warn fd p s = elim (Bool-cases (requested s.request_mask new_connection_type)) [
  | inl e ↦
      rw (e, process-method idle_handlers warn delete_request s (new_connection fd p) (λ t. cc))
        refl
  | inr e ↦ rw e refl
]

pub positive :
    (fd : ℤ) → ltb_ℤ (pos 0) fd ≡ true → (ltb_ℤ fd (pos 0) ≡ false) × ((fd ==ℤ pos 0) ≡ false)
unfolding ltb_ℤ ◌==ℤ◌
positive fd h = ground arith

Accepted-Connected :
    {s s' : Server} {fd : ℤ} {address : ℕ} {ds : List Descriptor}
    → Accepted s s' fd address ds
    → (fd ==ℤ pos 0) ≡ false
    → Lacks fd ds
    → Connected s' (suc s.last_connection) (connected fd address) ds []
Accepted-Connected {fd} a has_socket lacks = record {
  ne_null = omega arith;
  object = a.object;
  has_socket = has_socket;
  attached = refl;
  descriptor = record { fd = fd; object = _ };
  numbered = ==ℤ_refl fd;
  first = lacks;
  alone = tt;
  watched = a.watched;
}

-- A connection from accept to its loss, under a handler that keeps the methods of RequestHandler:
-- when accept is given a positive socket that no descriptor has, and the peer then closes while lost
-- connections are asked for, the server listens on the descriptors that it listened on before, has
-- closed that socket once and nothing else, has no object for the connection, and its lock, its own
-- socket and its mask are as before.
pub lost_event-accept :
    {s : Server} {ds : List Descriptor} (warn : ℕ → Server → Server) (fd : ℤ) (address : ℕ)
    → Watches s.listener ds
    → ltb_ℤ (pos 0) fd ≡ true
    → Lacks fd ds
    → requested s.request_mask connection_lost_type ≡ true
    → Returns
        (λ s'.
          Closed s s' (connected fd address) ds []
          × (s'.connections (suc s.last_connection) ≡ none))
        (accept (default_process warn) none fd address s >>= λ (_, s₁).
          lost_event (default_process warn) none fd (suc s.last_connection) s₁)
lost_event-accept {s} warn fd address w up lacks mask =
    let (s₁, a, e) = accept_lem {s = s} (default_process warn) fd address w (positive fd up).0 in
    rw (e, send_idle warn fd (suc s.last_connection) s₁)
      (Returns-mono
        (lost_event-Closed warn (Accepted-Connected a (positive fd up).1 lacks) (inr refl)
          (ap (λ m. requested m connection_lost_type) a.same_mask ∙ mask))
        λ s' (d, gone). (
          record {
            watched = d.watched;
            closed_once = d.closed_once ∙ ap (λ l. l ++ fd ∷ []) a.same_closed;
            same_lock = d.same_lock ∙ a.same_lock;
            same_socket = d.same_socket ∙ a.same_socket;
            same_mask = d.same_mask ∙ a.same_mask;
            same_written = d.same_written ∙ a.same_written;
          },
          gone,
        ))
