-- ===== src/Sample/Handler.antt =====
-- examples/libmsrvsample/src/samplehandler.cc, class MyHandler: its methods for the requests. What
-- gethostbyaddr answers is an argument, and so is the fuel for a loop over the connections.
pub mod Relay
pub mod Commands
pub mod Greeting
use Prim.Native.String.{String}
use magicserver.Prelude.{
  ℕ, zero, suc, Bool, true, false, not, Option, none, some, List, [], ◌∷◌, ◌++◌, ℤ, ◌==ℤ◌, ◌&&◌,
  if◌then◌else◌, Outcome, ok, out_of_fuel, ◌>>=◌,
}
use magicserver.Errors.{MsrvResult, success}
use magicserver.Memory.{Ptr}
use magicserver.Container.Array.{Iterator, exhausted}
use magicserver.Listener.{Listener, log_event, start_shutdown}
use magicserver.Request.{Handlers}
use magicserver.Server.{
  Connection, Server, info, default_mask, set_request_mask, load_connection, close_connection,
}
use magicserver.Server.Shutdown.{conn_iter, conn_get, conn_next}
use magicserver.Sample.Text.{
  bytes, cut, c_string, same_text, welcome, answer, relayed, welcome_stranger, bye, shutting_down,
}

-- log().message ("SAMPLE", Log::Info, 0, ...)
abbrev pub log_sample : String → Server → Server
log_sample text s = record s {
  listener =
      log_event
        (record { modulename = "SAMPLE"; fatality = info; errno = success; text = some text })
        s.listener;
}

-- write (fd, msg, strlen (msg))
abbrev pub write_to : ℤ → List ℕ → Server → Server
write_to fd msg s = record s { written = s.written ++ (fd, msg) ∷ [] }

-- MSrvResult MyHandler::init (ServerListener& rListener)
unfoldable pub init : Server → MsrvResult × Server
init s = (success, set_request_mask default_mask s)

-- Process new connection request.
pub new_connection_request : Option (List ℕ) → ℤ → Ptr → Server → Outcome (MsrvResult × Server)
new_connection_request host socket p s = do
  c ← load_connection p s
  ok (
    success,
    elim host [
      | some name ↦ write_to socket (welcome name c.address) s
      | none ↦
          write_to socket welcome_stranger
            (log_sample "Resolving address %s failed with error %d; %s." s)
    ],
  )

-- Process connection lost request.
pub connection_lost_request : Server → Outcome (MsrvResult × Server)
connection_lost_request s = ok (success, log_sample "Connection lost" s)

-- for (ServerListener::ConnIter serv_i (...); !serv_i.exhausted (); serv_i.next ()), where the body
-- writes `writes c` for a connection `c`.
pub for_connections : ℕ → (Connection → List (ℤ × List ℕ)) → Iterator → Server → Outcome Server
for_connections zero writes it s = out_of_fuel
for_connections (suc f) writes it s = elim (exhausted it) [
  | true ↦ ok s
  | false ↦ do
    p ← conn_get it s
    c ← load_connection p s
    let s₁ : Server = record s { written = s.written ++ writes c }
    it₁ ← conn_next (suc f) it s₁
    for_connections f writes it₁ s₁
]

-- The relayed message goes to all but the client that has sent it.
unfoldable pub relay_to : ℤ → List ℕ → Connection → List (ℤ × List ℕ)
relay_to socket msg c = if c.conn_socket ==ℤ socket then [] else (c.conn_socket, msg) ∷ []

-- The response to any other text.
pub respond : ℕ → ℤ → List ℕ → Server → Outcome Server
respond f socket text s = do
  let s₁ = write_to socket (answer text) s
  it ← conn_iter f s₁
  for_connections f (relay_to socket (relayed text)) it s₁

-- The commands. A request of stream data has a connection.
pub command : ℕ → ℤ → Option Ptr → List ℕ → Server → Outcome (MsrvResult × Server)
command f socket none text s =
    if same_text text (bytes "shutdown")
    then ok (success, record s { listener = start_shutdown s.listener })
    else (do s₁ ← respond f socket text s; ok (success, s₁))
command f socket (some p) text s =
    if same_text text (bytes "shutdown")
    then ok (success, record s { listener = start_shutdown s.listener })
    else if same_text text (bytes "quit")
    then close_connection p (write_to socket bye s)
    else (do s₁ ← respond f socket text s; ok (success, s₁))

-- MSrvResult MyHandler::processData (DataRequest& rRequest)
pub process_data : ℕ → ℤ → Option Ptr → List ℕ → Server → Outcome (MsrvResult × Server)
process_data f socket p data_bytes s = do
  text ← c_string (cut data_bytes)
  (result, s₁) ← command f socket p text s
  ok (result, log_sample "Received message '%s'." s₁)

-- MSrvResult MyHandler::process (StreamDataRequest& rRequest), and the same for a datagram
abbrev pub stream_data_request : ℕ → ℤ → Ptr → List ℕ → Server → Outcome (MsrvResult × Server)
stream_data_request f socket p data_bytes s = process_data f socket (some p) data_bytes s

abbrev pub datagram_request : ℕ → ℤ → List ℕ → Server → Outcome (MsrvResult × Server)
datagram_request f socket data_bytes s = process_data f socket none data_bytes s

-- Process shutdown request: the message goes to all connections.
pub shutdown_request : ℕ → Server → Outcome (MsrvResult × Server)
shutdown_request f s = do
  let logged = log_sample "Server is shutting down." s
  it ← conn_iter f logged
  s₁ ← for_connections f (λ c. (c.conn_socket, shutting_down) ∷ []) it logged
  ok (success, s₁)

-- Process timeout request.
pub timeout_request : Server → Outcome (MsrvResult × Server)
timeout_request s = ok (success, log_sample "Listener notified about a routine timeout." s)

-- class MyHandler
abbrev pub my_handler : ℕ → Option (List ℕ) → Handlers Server
my_handler f host = record {
  on_new_connection = new_connection_request host;
  on_stream_data = stream_data_request f;
  on_datagram = datagram_request f;
  on_connection_lost = λ socket p. connection_lost_request;
  on_shutdown = shutdown_request f;
  on_timeout = timeout_request;
}
