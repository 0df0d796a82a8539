-- ===== src/Server/Bind.antt =====
-- libmsrv/src/msrvserver.cc: ServerListener::bind. What the socket calls return is an argument.
pub mod Laws
use Prim.Native.String.{String}
use magicserver.Prelude.{
  ℕ, Bool, true, false, not, ℤ, pos, ltb_ℤ, ◌==ℤ◌, ◌==◌, ◌||◌, if◌then◌else◌, Outcome, ok, ◌>>=◌,
}
use Prim.Native.Nat.{bit_and}
use magicserver.Errors.{
  MsrvResult, success, socket_failed, set_socket_options_failed, bind_failed, listen_failed,
}
use magicserver.Lock.{lock, unlock}
use magicserver.Memory.{null}
use magicserver.Container.Array.{add}
use magicserver.Listener.{Descriptor, Listener}
use magicserver.Server.{Protocol, tcp, udp, Server, critical, info, log_server, close_fd}

-- The results of socket, setsockopt, bind and listen, of those that are called.
pub record SocketCalls : Type 0 where
  pub sockfd : ℤ
  pub setsockopt : ℤ
  pub bound : ℤ
  pub listening : ℤ

-- bindflags
abbrev pub bindf_noreuse : ℕ
bindf_noreuse = 1

-- The messages of the calls that may fail after the socket was made: the message is written, and
-- the socket is closed.
abbrev pub setsockopt_text : String
setsockopt_text = "Setting socket options failed with error %d; %s."

abbrev pub bind_text : String
bind_text = "Bind failed with error %d; %s"

abbrev pub listen_text : String
listen_text = "Listen failed with error %d; %s"

abbrev pub bind_error : MsrvResult → String → ℤ → Server → MsrvResult × Server
bind_error e text sockfd s = (e, close_fd sockfd (log_server critical e text s))

-- mDescriptors.add (new Descriptor (fd, object)) under the server's lock.
pub store_socket : ℤ → Protocol → Server → Outcome (MsrvResult × Server)
unfolding lock unlock
store_socket sockfd protocol s = do
  let l = s.listener
  let locked = lock l.thread_lock
  (_, a, m) ← add (record { fd = sockfd; object = null }) l.descriptors l.storage
  ok (
    success,
    record s {
      listener = record l { thread_lock = unlock locked; descriptors = a; storage = m };
      socket = sockfd;
      protocol = protocol;
    },
  )

-- From the binding of the address on.
pub bind_address : Protocol → SocketCalls → Server → Outcome (MsrvResult × Server)
bind_address protocol c s =
    if ltb_ℤ c.bound (pos 0)
    then ok (bind_error bind_failed bind_text c.sockfd s)
    else elim protocol [
      | tcp ↦
          if c.listening ==ℤ pos 0
          then store_socket c.sockfd tcp s
          else ok (bind_error listen_failed listen_text c.sockfd s)
      | udp ↦ store_socket c.sockfd udp s
    ]

-- MSrvResult ServerListener::bind (int portno, protocol_type protocol, uint flags)
pub bind : Protocol → ℕ → SocketCalls → Server → Outcome (MsrvResult × Server)
bind protocol flags c s =
    if ltb_ℤ (pos 0) c.sockfd
    then if bit_and flags bindf_noreuse == 0
      then (if ltb_ℤ c.setsockopt (pos 0)
          then ok (bind_error set_socket_options_failed setsockopt_text c.sockfd s)
          else bind_address protocol c (announced s))
      else bind_address protocol c (announced s)
    else ok (
      socket_failed,
      log_server critical socket_failed "Creating socket failed with error %d; %s." s,
    )
  where
    announced : Server → Server
    announced = log_server info success "Binding to %s port %d..."
