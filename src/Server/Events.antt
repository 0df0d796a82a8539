-- ===== src/Server/Events.antt =====
-- libmsrv/src/msrvserver.cc: what a ServerListener does on an event: accept, descriptorEvent and
-- timeoutEvent. The handler's process and the connection factory are the application's; what accept
-- and read return is an argument.
pub mod Reading
pub mod Lost
pub mod Accepting
pub mod Unasked
pub mod Buffer
pub mod Arriving
use Prim.Native.Nat.{bit_and}
use magicserver.Prelude.{
  ℕ, zero, suc, ◌+◌, Bool, true, false, not, Option, none, some, List, [], ◌∷◌, ◌++◌, ℤ, pos,
  negsuc, ltb, ltb_ℤ, ◌==ℤ◌, ◌==◌, ◌&&◌, if◌then◌else◌, length, Outcome, ok, out_of_fuel, ◌>>=◌,
}
use magicserver.Errors.{MsrvResult, success, accept_failed, read_failed}
use magicserver.Memory.{Ptr}
use magicserver.Container.Array.{add}
use magicserver.Listener.{Descriptor, Listener}
use magicserver.Request.{
  Request, new_connection, stream_data, datagram, connection_lost, timeout_request, requested,
  new_connection_type, stream_data_type, datagram_type, connection_lost_type, timeout_type,
}
use magicserver.Server.{
  Protocol, tcp, udp, Connection, Server, critical, warning, info, log_server, set_connection,
  server_remove,
}

-- RequestHandler::process of the attached handler.
abbrev pub Process : Type 0
Process = Request → Server → Outcome (MsrvResult × Server)

-- MSRV_READ_BUFFER_LEN
abbrev pub read_buffer_len : ℕ
read_buffer_len = 1024

-- What one call of read gives: -1, or the bytes that it read, none at the end of the stream.
pub data ReadResult : Type 0 where
  read_error : ReadResult
  block : List ℕ → ReadResult

-- The read loop: the last value of readcount, and the bytes in the dynamic buffer. The list holds
-- what the calls of read return; it is too short if another call is made.
pub read_loop : List ReadResult → List ℕ → Outcome (ℤ × List ℕ)
read_loop [] bytes = out_of_fuel
read_loop (read_error ∷ rs) bytes = ok (negsuc 0, bytes)
read_loop (block new ∷ rs) bytes =
    let more = read_loop rs (bytes ++ new) in
    if length new == 0
    then ok (pos 0, bytes)
    else if length new == read_buffer_len
    then more
    else ok (pos (length new), bytes ++ new)

-- new Connection (clientsocket, clientAddr, *this)
pub make_connection : ℤ → ℕ → Server → Ptr × Server
make_connection fd address s =
    let p = suc s.last_connection in
    let c : Connection = record { conn_socket = fd; has_listener = true; address = address } in
    (p, record (set_connection p (some c) s) { last_connection = p })

-- The connection object: from the factory, if one is set.
pub produce : Option (ℤ → ℕ → Server → Ptr × Server) → ℤ → ℕ → Server → Ptr × Server
unfolding make_connection
produce none = make_connection
produce (some create) = create

-- mDescriptors.add (new Descriptor (fd, pNewConn))
pub add_descriptor : ℤ → Ptr → Server → Outcome Server
add_descriptor fd p s = do
  (_, a, m) ← add (record { fd = fd; object = p }) s.listener.descriptors s.listener.storage
  ok (record s { listener = record s.listener { descriptors = a; storage = m } })

abbrev is_tcp : Protocol → Bool
is_tcp tcp = true
is_tcp udp = false

module _ (process : Process) (factory : Option (ℤ → ℕ → Server → Ptr × Server)) where
  -- getHandler()->process (new ...), if the mask has the request's type; the result is dropped.
  pub send : ℕ → Request → Server → Outcome Server
  send type r s = if requested s.request_mask type then (do (_, s₁) ← process r s; ok s₁) else ok s

  -- MSrvResult ServerListener::accept ()
  pub accept : ℤ → ℕ → Server → Outcome (MsrvResult × Server)
  unfolding produce add_descriptor send
  accept fd address s =
      if ltb_ℤ fd (pos 0)
      then ok
          (accept_failed, log_server critical accept_failed "Accept failed with error %d; %s." s)
      else do
        let logged = log_server info success "Accepted connection from %d.%d.%d.%d" s
        let (p, s₁) = produce factory fd address logged
        s₂ ← add_descriptor fd p s₁
        s₃ ← send new_connection_type (new_connection fd p) s₂
        ok (success, s₃)

  -- Data has arrived: a request with all of it, of the kind that the protocol has.
  pub data_event : ℤ → Ptr → List ℕ → Server → Outcome Server
  unfolding send
  data_event fd p bytes s = elim s.protocol [
    | tcp ↦ send stream_data_type (stream_data fd p bytes) s
    | udp ↦ send datagram_type (datagram fd bytes) s
  ]

  -- The peer has closed: the handler is told, and the descriptor is removed.
  pub lost_event : ℤ → Ptr → Server → Outcome Server
  lost_event fd p s = do
    let logged = log_server info success "Connection lost. Closing the connection." s
    s₁ ← send connection_lost_type (connection_lost fd p) logged
    (_, s₂) ← server_remove fd s₁
    ok s₂

  -- The part of descriptorEvent after the read loop.
  pub after_read : ℤ → Ptr → ℤ → List ℕ → Server → Outcome Server
  unfolding data_event lost_event
  after_read fd p readcount bytes s =
      let logged =
        if ltb_ℤ readcount (pos 0)
        then log_server warning read_failed "Read failed with error %d; %s." s
        else s in
      if ltb 0 (length bytes)
      then data_event fd p bytes logged
      else if readcount ==ℤ pos 0
      then lost_event fd p logged
      else ok logged

  -- MSrvResult ServerListener::descriptorEvent (int fd, void* pDescriptorData). `accepted` is what
  -- accept would return here, `reads` what the calls of read return.
  pub descriptor_event :
      (accepted : ℤ) (address : ℕ) (reads : List ReadResult)
      → ℤ
      → Ptr
      → Server
      → Outcome (MsrvResult × Server)
  descriptor_event accepted address reads fd p s =
      if (fd ==ℤ s.socket) && is_tcp s.protocol
      then (do (_, s₁) ← accept accepted address s; ok (success, s₁))
      else do
        (readcount, bytes) ← read_loop reads []
        s₁ ← after_read fd p readcount bytes s
        ok (success, s₁)

  -- MSrvResult ServerListener::timeoutEvent ()
  pub timeout_event : Server → Outcome (MsrvResult × Server)
  timeout_event s =
      if requested s.request_mask timeout_type then process timeout_request s else ok (success, s)
