-- ===== src/Server/Bind/Laws.antt =====
-- What ServerListener::bind leaves behind when it succeeds, and when it fails.
use Prim.Native.String.{String}
use magicserver.Prelude.{
  ◌∙◌, negsuc, ℕ, ◌≡◌, refl, ◌⊎◌, inl, inr, true, false, ◌&&◌, Option, none, some, List, [], ◌∷◌,
  ◌++◌, arith, pos, ltb_ℤ, ◌==ℤ◌, ◌==◌, if◌then◌else◌, Bool-cases, Returns, returns, Returns-bind,
  Returns-mono,
}
use Prim.Native.Nat.{bit_and}
use magicserver.Errors.{
  MsrvResult, success, socket_failed, set_socket_options_failed, bind_failed, listen_failed,
}
use magicserver.Lock.{unlock-lock}
use magicserver.Memory.{null}
use magicserver.Container.Array.Add.{add-append}
use magicserver.Listener.{Descriptor}
use magicserver.Listener.Removal.{Watches}
use magicserver.Server.{Protocol, tcp, udp, Server, info, log_server}
use magicserver.Server.Bind.{
  SocketCalls, bindf_noreuse, bind_error, setsockopt_text, bind_text, listen_text, store_socket,
  bind_address, bind,
}

-- The server listens on the new socket, besides what it listened on before.
pub record Listening (c : SocketCalls) (protocol : Protocol) (ds : List Descriptor) (s s' : Server)
    : Type 0 where
  pub positive : ltb_ℤ (pos 0) c.sockfd ≡ true
  pub socket : s'.socket ≡ c.sockfd
  pub spoken : s'.protocol ≡ protocol
  pub watched : Watches s'.listener (ds ++ record { fd = c.sockfd; object = null } ∷ [])
  pub closed : s'.closed ≡ s.closed
  pub same_lock : s'.listener.thread_lock ≡ s.listener.thread_lock
  pub same_status : s'.listener.shutdown_status ≡ s.listener.shutdown_status
  pub same_pool : s'.pool ≡ s.pool
  pub same_mask : s'.request_mask ≡ s.request_mask
  pub same_written : s'.written ≡ s.written
  pub same_last : s'.last_connection ≡ s.last_connection

-- The server listens on what it listened on before. The socket is closed if it is positive; no other
-- is taken for a socket.
pub record Unbound (c : SocketCalls) (ds : List Descriptor) (s s' : Server) : Type 0 where
  pub socket : s'.socket ≡ s.socket
  pub watched : Watches s'.listener ds
  pub closed : s'.closed ≡ (if ltb_ℤ (pos 0) c.sockfd then s.closed ++ c.sockfd ∷ [] else s.closed)
  pub same_lock : s'.listener.thread_lock ≡ s.listener.thread_lock
  pub same_pool : s'.pool ≡ s.pool

-- The first of the calls on the socket that fails, by its error.
unfoldable pub address_failure : Protocol → SocketCalls → Option MsrvResult
address_failure tcp c =
    if ltb_ℤ c.bound (pos 0)
    then some bind_failed
    else if c.listening ==ℤ pos 0
    then none
    else some listen_failed
address_failure udp c = if ltb_ℤ c.bound (pos 0) then some bind_failed else none

-- The first of all the calls that fails. setsockopt is not called where the flags forbid reuse.
unfoldable pub first_failure : Protocol → ℕ → SocketCalls → Option MsrvResult
unfolding address_failure
first_failure protocol flags c =
    if ltb_ℤ (pos 0) c.sockfd
    then if (bit_and flags bindf_noreuse == 0) && ltb_ℤ c.setsockopt (pos 0)
      then some set_socket_options_failed
      else address_failure protocol c
    else some socket_failed

-- What bind leaves behind, by the first call that fails.
abbrev pub Bound :
    Option MsrvResult
    → SocketCalls
    → Protocol
    → List Descriptor
    → Server
    → MsrvResult × Server
    → Type 0
Bound failure c protocol ds s (r, s') =
    ((failure ≡ none) × (r ≡ success) × Listening c protocol ds s s')
    ⊎ ((failure ≡ some r) × (ltb_ℤ r (pos 0) ≡ true) × Unbound c ds s s')

store_socket-Listening :
    {s : Server} {ds : List Descriptor} (c : SocketCalls) (protocol : Protocol)
    → Watches s.listener ds
    → ltb_ℤ (pos 0) c.sockfd ≡ true
    → Returns
        (λ (r, s'). (r ≡ success) × Listening c protocol ds s s')
        (store_socket c.sockfd protocol s)
unfolding store_socket
store_socket-Listening {s} c protocol w made =
    Returns-bind (add-append _ w.sane w.held) λ (r, a, m) (_, is, _, replaced). returns (
      refl,
      record {
        positive = made;
        socket = refl;
        spoken = refl;
        watched = record { sane = replaced.sane; held = is };
        closed = refl;
        same_lock = unlock-lock s.listener.thread_lock;
        same_status = refl;
        same_pool = refl;
        same_mask = refl;
        same_written = refl;
        same_last = refl;
      },
    )

store_socket-Bound :
    {s : Server} {ds : List Descriptor} (c : SocketCalls) (protocol : Protocol)
    → Watches s.listener ds
    → ltb_ℤ (pos 0) c.sockfd ≡ true
    → Returns (Bound none c protocol ds s) (store_socket c.sockfd protocol s)
store_socket-Bound {s} c protocol w made =
    Returns-mono (store_socket-Listening c protocol w made) λ (r, s') (e, l). inl (refl, e, l)

error-Bound :
    {s : Server} {ds : List Descriptor} (c : SocketCalls) (protocol : Protocol) (e : MsrvResult)
    (text : String)
    → Watches s.listener ds
    → ltb_ℤ (pos 0) c.sockfd ≡ true
    → ltb_ℤ e (pos 0) ≡ true
    → Bound (some e) c protocol ds s (bind_error e text c.sockfd s)
error-Bound c protocol e text w made ne = inr (
  refl,
  ne,
  record {
    socket = refl;
    watched = record { sane = w.sane; held = w.held };
    closed = rw made;
    same_lock = refl;
    same_pool = refl;
  },
)

negative : (n : ℕ) → ltb_ℤ (negsuc n) (pos 0) ≡ true
unfolding ltb_ℤ
negative n = ground arith

bind_address-Bound :
    {s : Server} {ds : List Descriptor} (protocol : Protocol) (c : SocketCalls)
    → Watches s.listener ds
    → ltb_ℤ (pos 0) c.sockfd ≡ true
    → Returns (Bound (address_failure protocol c) c protocol ds s) (bind_address protocol c s)
unfolding bind_address address_failure
bind_address-Bound tcp c w made = elim (Bool-cases (ltb_ℤ c.bound (pos 0))) [
  | inl e ↦ rw e (returns (error-Bound c tcp bind_failed bind_text w made (negative _)))
  | inr e ↦ elim (Bool-cases (c.listening ==ℤ pos 0)) [
    | inl d ↦ rw (e, d) (store_socket-Bound c tcp w made)
    | inr d ↦ rw (e, d) (returns (error-Bound c tcp listen_failed listen_text w made (negative _)))
  ]
]
bind_address-Bound udp c w made = elim (Bool-cases (ltb_ℤ c.bound (pos 0))) [
  | inl e ↦ rw e (returns (error-Bound c udp bind_failed bind_text w made (negative _)))
  | inr e ↦ rw e (store_socket-Bound c udp w made)
]

-- A message in the log changes none of this.
Bound-logged :
    {s t : Server} {ds : List Descriptor} {c : SocketCalls} {protocol : Protocol}
    {failure : Option MsrvResult}
    → t.socket ≡ s.socket
    → t.closed ≡ s.closed
    → t.listener.thread_lock ≡ s.listener.thread_lock
    → t.listener.shutdown_status ≡ s.listener.shutdown_status
    → t.pool ≡ s.pool
    → (t.request_mask ≡ s.request_mask)
      × (t.written ≡ s.written)
      × (t.last_connection ≡ s.last_connection)
    → (r : MsrvResult × Server) → Bound failure c protocol ds t r
    → Bound failure c protocol ds s r
Bound-logged a b d g k (m, n, q) r (inl (none_fails, e, l)) = inl (
  none_fails,
  e,
  record {
    positive = l.positive;
    socket = l.socket;
    spoken = l.spoken;
    watched = l.watched;
    closed = ground (arith, l.closed, b);
    same_lock = ground (arith, l.same_lock, d);
    same_status = l.same_status ∙ g;
    same_pool = l.same_pool ∙ k;
    same_mask = l.same_mask ∙ m;
    same_written = l.same_written ∙ n;
    same_last = l.same_last ∙ q;
  },
)
Bound-logged {c} a b d g k h r (inr (fails, e, u)) = inr (
  fails,
  e,
  record {
    socket = ground (arith, u.socket, a);
    watched = u.watched;
    closed = rw (← b) u.closed;
    same_lock = ground (arith, u.same_lock, d);
    same_pool = u.same_pool ∙ k;
  },
)

-- The address is bound after a message in the log.
announced-Bound :
    {s : Server} {ds : List Descriptor} (protocol : Protocol) (c : SocketCalls) (text : String)
    → Watches s.listener ds
    → ltb_ℤ (pos 0) c.sockfd ≡ true
    → Returns
        (Bound (address_failure protocol c) c protocol ds s)
        (bind_address protocol c (log_server info success text s))
announced-Bound {s} {ds} protocol c text w made =
    Returns-mono
      (bind_address-Bound {s = logged} protocol c (record { sane = w.sane; held = w.held }) made)
      (Bound-logged {s = s} {t = logged} refl refl refl refl refl (refl, refl, refl))
  where
    logged : Server
    logged = log_server info success text s

-- ServerListener::bind always returns. If socket gives a positive number, setsockopt, where the flags ask
-- for it, and bind do not fail, and over TCP listen does not either, the result is success: the server
-- speaks the given protocol on the new socket and listens on it besides what it listened on before, and
-- its shutdown flag is as before. Otherwise the result is the error of the first of these calls that
-- fails, which is negative, the server's socket and its descriptors are as before, and the socket is
-- closed if it is positive (0 is taken for a failure of socket, and is not closed). The lock is as
-- before, and so is what the handler keeps.
pub bind_all_or_nothing :
    {s : Server} {ds : List Descriptor} (protocol : Protocol) (flags : ℕ) (c : SocketCalls)
    → Watches s.listener ds
    → Returns (Bound (first_failure protocol flags c) c protocol ds s) (bind protocol flags c s)
unfolding bind first_failure
bind_all_or_nothing protocol flags c w = elim (Bool-cases (ltb_ℤ (pos 0) c.sockfd)) [
  | inr e ↦
      rw (e, bind)
        (returns (
          inr (
            refl,
            negative _,
            record {
              socket = refl;
              watched = record { sane = w.sane; held = w.held };
              closed = rw e;
              same_lock = refl;
              same_pool = refl;
            },
          )))
  | inl e ↦ elim (Bool-cases (bit_and flags bindf_noreuse == 0)) [
    | inr d ↦ rw (e, bind) (rw d (announced-Bound protocol c "Binding to %s port %d..." w e))
    | inl d ↦ elim (Bool-cases (ltb_ℤ c.setsockopt (pos 0))) [
      | inl g ↦
          rw (e, bind)
            (rw (d, g)
              (returns (
                error-Bound c protocol set_socket_options_failed setsockopt_text w e (negative _))))
      | inr g ↦ rw (e, bind) (rw (d, g) (announced-Bound protocol c "Binding to %s port %d..." w e))
    ]
  ]
]

-- When the calls on the socket succeed, ServerListener::bind over TCP does.
pub bind-Listening :
    {s : Server} {ds : List Descriptor} (c : SocketCalls)
    → Watches s.listener ds
    → ltb_ℤ (pos 0) c.sockfd ≡ true
    → ltb_ℤ c.setsockopt (pos 0) ≡ false
    → ltb_ℤ c.bound (pos 0) ≡ false
    → (c.listening ==ℤ pos 0) ≡ true
    → Returns (λ (r, s'). (r ≡ success) × Listening c tcp ds s s') (bind tcp 0 c s)
unfolding bind bind_address
bind-Listening {s} c w made reusable bound listening = rw made (
    rw reusable (
      rw bound (
        rw listening (
          Returns-mono
            (store_socket-Listening {s = log_server info success "Binding to %s port %d..." s} c tcp
              (record { sane = w.sane; held = w.held }) made)
            λ (r, s') (e, l). (
              e,
              record {
                positive = l.positive;
                socket = l.socket;
                spoken = l.spoken;
                watched = l.watched;
                closed = l.closed;
                same_lock = l.same_lock;
                same_status = l.same_status;
                same_pool = l.same_pool;
                same_mask = l.same_mask;
                same_written = l.same_written;
                same_last = l.same_last;
              },
            )))))
