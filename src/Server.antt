-- ===== src/Server.antt =====
-- libmsrv/src/msrvserver.cc and libmsrv/include/magicserver/msrvserver.h: the state of a
-- ServerListener with the connections that it made, and class Connection. `closed` lists the file
-- descriptors that were passed to close(), and `written` what was passed to write(), oldest first.
pub mod Bind
pub mod Closing
pub mod Connections
pub mod Events
pub mod Examples
pub mod Shutdown
use Prim.Native.String.{String}
use magicserver.Prelude.{
  ℕ, suc, ◌+◌, Bool, true, false, not, Option, none, some, List, [], ◌∷◌, ◌++◌, ℤ, pos, ltb_ℤ,
  ◌==ℤ◌, ◌==◌, if◌then◌else◌, Outcome, ok, fault, null_pointer, dangling, ◌>>=◌, or_fault,
}
use magicserver.Errors.{MsrvResult, success, null_argument, connection_no_socket, no_listener}
use magicserver.Lock.{lock, unlock}
use magicserver.Memory.{Ptr, null, Memory}
use magicserver.Container.Array.{add}
use magicserver.Log.Writing.{Event}
use magicserver.Listener.{Descriptor, Listener, new_listener, log_event, remove_descriptor}
use magicserver.Request.{
  Request, connection_lost, new_connection_type, stream_data_type, datagram_type,
  connection_lost_type, shutdown_type,
}

-- ServerListener::protocol_type
pub data Protocol : Type 0 where
  tcp udp : Protocol

-- Class Connection. `has_listener` says that mrpListener is not NULL, `address` is the peer's s_addr.
pub record Connection : Type 0 where
  pub conn_socket : ℤ
  pub has_listener : Bool
  pub address : ℕ

-- What a WorkerPool keeps, if it is the handler: mIsShutdown and mRequestQueue.
pub record PoolState : Type 0 where
  pub is_shutdown : Bool
  pub queue : List Request

abbrev pub new_pool_state : PoolState
new_pool_state = record { is_shutdown = false; queue = [] }

-- Class ServerListener, with what its handler keeps.
pub record Server : Type 0 where
  pub listener : Listener
  pub socket : ℤ
  pub protocol : Protocol
  pub request_mask : ℕ
  pub last_connection : Ptr
  pub connections : Ptr → Option Connection
  pub closed : List ℤ
  pub written : List (ℤ × List ℕ)
  pub pool : PoolState

-- The requests that a new ServerListener sends: all but timeouts.
abbrev pub default_mask : ℕ
default_mask =
    new_connection_type + stream_data_type + datagram_type + connection_lost_type + shutdown_type

-- ServerListener::ServerListener, up to its call of the handler's init.
unfoldable pub new_server : Memory Descriptor → Server
new_server m = record {
  listener = new_listener m;
  socket = pos 0;
  protocol = tcp;
  request_mask = default_mask;
  last_connection = null;
  connections = λ _. none;
  closed = [];
  written = [];
  pool = new_pool_state;
}

-- void ServerListener::setRequestMask (uint mask)
unfoldable pub set_request_mask : ℕ → Server → Server
set_request_mask mask s = record s { request_mask = mask }

-- Log::fatality
abbrev pub critical : ℤ
critical = pos 2

abbrev pub warning : ℤ
warning = pos 4

abbrev pub info : ℤ
info = pos 6

-- log().message ("SERVER", ...), with the format string.
abbrev pub log_server : ℤ → MsrvResult → String → Server → Server
log_server fatality errno text s = record s {
  listener =
      log_event
        (record { modulename = "SERVER"; fatality = fatality; errno = errno; text = some text })
        s.listener;
}

abbrev pub with_listener : MsrvResult × Listener → Server → MsrvResult × Server
with_listener (r, l) s = (r, record s { listener = l })

-- removeDescriptor, inherited
abbrev pub server_remove : ℤ → Server → Outcome (MsrvResult × Server)
server_remove fd s = do r ← remove_descriptor fd s.listener; ok (with_listener r s)

-- ::close (fd)
abbrev pub close_fd : ℤ → Server → Server
close_fd fd s = record s { closed = s.closed ++ fd ∷ [] }

abbrev pub set_connection : Ptr → Option Connection → Server → Server
set_connection p c s = record s { connections = λ q. if p == q then c else s.connections q }

unfoldable pub load_connection : Ptr → Server → Outcome Connection
load_connection p s = if p == null then fault null_pointer else or_fault dangling (s.connections p)

-- The part of Connection::close after removeDescriptor has answered.
pub finish_close : Ptr → Connection → MsrvResult → Server → Server
finish_close p c r s = log_server info success "Connection closed." (
    set_connection p (some (record c { conn_socket = pos 0 })) (
      close_fd c.conn_socket (
        if ltb_ℤ r (pos 0)
        then log_server warning success "Removing descriptor failed with error %d." s
        else s)))

-- MSrvResult Connection::close (). Without a listener the last message goes through NULL.
pub close_connection : Ptr → Server → Outcome (MsrvResult × Server)
unfolding load_connection
close_connection p s = do
  c ← load_connection p s
  if c.conn_socket ==ℤ pos 0
      then ok (connection_no_socket, s)
      else if c.has_listener
      then (do (r, s₁) ← server_remove c.conn_socket s; ok (r, finish_close p c r s₁))
      else fault null_pointer

-- delete of a Connection: close it, whatever that returns, and free it.
pub delete_connection : Ptr → Server → Outcome Server
delete_connection p s =
    if p == null then ok s else do (_, s₁) ← close_connection p s; ok (set_connection p none s₁)

-- The destructors of the requests: that of a lost connection destroys the connection.
unfoldable pub delete_request : Request → Server → Outcome Server
unfolding delete_connection
delete_request (connection_lost socket p) s = delete_connection p s
delete_request r s = ok s

-- MSrvResult ServerListener::close (Connection* pConn). Both calls around the close are lock ().
pub server_close : Ptr → Server → Outcome (MsrvResult × Server)
unfolding lock
server_close p s = if p == null then ok (null_argument, s) else do
  (_, s₁) ← close_connection p (record s { listener = locked s.listener })
  ok (success, record s₁ { listener = locked s₁.listener })
  where
    locked : Listener → Listener
    locked l = record l { thread_lock = lock l.thread_lock }
