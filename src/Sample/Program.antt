-- ===== src/Sample/Program.antt =====
-- examples/msrvsample_listener/src/samplelistener.cc: serverMain of the program that handles the
-- requests in the listener's own thread. It puts a log, the sample handler and a server together. The
-- parts that the program in examples/msrvsample_worker has, too, take the name of the program in the
-- log's messages, and the handler.
pub mod Serving
pub mod Failing
pub mod Relaying
pub mod Session
pub mod Visit
pub mod Running
use Prim.Native.String.{String}
use magicserver.Prelude.{
  ℕ, Bool, true, false, Option, none, some, List, [], ◌∷◌, ◌++◌, ℤ, pos, ltb_ℤ, if◌then◌else◌,
  Outcome, ok, ◌>>=◌,
}
use magicserver.Errors.{MsrvResult, success}
use magicserver.Memory.{Ptr, Memory}
use magicserver.Log.{LogFile, from_filename, destroy_log}
use magicserver.Log.Writing.{Event}
use magicserver.Listener.{Descriptor, Listener, log_event}
use magicserver.Listener.Listen.{Answer, Inheritor, listen}
use magicserver.Request.{process}
use magicserver.Server.{
  Protocol, tcp, udp, Server, new_server, info, warning, critical, delete_request,
}
use magicserver.Server.Bind.{SocketCalls, bind}
use magicserver.Server.Events.{Process, ReadResult, descriptor_event, timeout_event}
use magicserver.Server.Shutdown.{shutdown}
use magicserver.Sample.Handler.{my_handler, init}
use magicserver.Sample.Arguments.{TestArgs, Exit, returned, runtime_error}

-- What the system answers on an event of a descriptor.
pub record EventCalls : Type 0 where
  pub accepted : ℤ
  pub address : ℕ
  pub reads : List ReadResult

-- A ServerListener as a class that inherits from Listener, with a handler and no factory.
abbrev pub server_listener : Process → (ℤ → Ptr → Server → EventCalls) → ℕ → Inheritor Server
server_listener handle calls f = record {
  listener = λ s. s.listener;
  put = λ l s. record s { listener = l };
  descriptor_event = λ fd p s.
      let c = calls fd p s in descriptor_event handle none c.accepted c.address c.reads fd p s;
  timeout_event = λ s. timeout_event handle none s;
  on_shutdown = λ s. shutdown handle f s;
}

-- What the C library and the system answer to the program: fopen, daemon, the calls of bind, those of
-- select, those on events, and gethostbyaddr; and the memory for the descriptors.
pub record System : Type 0 where
  pub opened : Option ℕ
  pub daemonized : ℤ
  pub sockets : SocketCalls
  pub answers : List Answer
  pub events : ℤ → Ptr → Server → EventCalls
  pub host : Option (List ℕ)
  pub memory : Memory Descriptor

-- log.message ("SMPLLIST", ...)
abbrev pub sample_event : String → ℤ → String → Event
sample_event name fatality text = record {
  modulename = name;
  fatality = fatality;
  errno = success;
  text = some text;
}

abbrev pub log_program : String → ℤ → String → Server → Server
log_program name fatality text s = record s {
  listener = log_event (sample_event name fatality text) s.listener;
}

-- The messages before the server exists.
unfoldable pub first_messages : String → Bool → ℤ → List Event
first_messages name daemonize daemonized =
    sample_event name info "Log opened."
    ∷ (if daemonize
        then (if ltb_ℤ daemonized (pos 0)
            then sample_event name critical "Daemonization failed with error %d; %s." ∷ []
            else [])
        else [])

-- The warning of RequestHandler::process on an unknown type.
abbrev pub log_unhandled : ℕ → Server → Server
log_unhandled type s = record s {
  listener =
      log_event
        (record {
          modulename = "REQUEST";
          fatality = warning;
          errno = success;
          text = some "Unhandled request type '%d'.";
        })
        s.listener;
}

-- The handler of the requests.
abbrev pub handle : ℕ → Option (List ℕ) → Process
handle f host = process (my_handler f host) log_unhandled delete_request

-- MyHandler myHandler; ServerListener myServer (myHandler, &log);
pub start_server : System → TestArgs → Server
unfolding first_messages init
start_server system args =
    let s = new_server system.memory in
    (init (record s {
      listener = record s.listener {
        messages = first_messages "SMPLLIST" args.daemonize system.daemonized;
      };
    })).1

-- The listener loop, after bind has answered. What listen itself closes is closed, too.
unfoldable pub serve : String → Process → System → ℕ → MsrvResult × Server → Outcome (Exit × Server)
serve name process system f (result, s) =
    if ltb_ℤ result (pos 0)
    then ok (
      returned (pos 1),
      log_program name info "Server stopped. Closing log and exiting."
          (log_program name critical "Server initialization failed with error %d." s),
    )
    else do
      (stopped, s₁, fds) ← listen (server_listener process system.events f) f system.answers s
      let s₂ : Server = record s₁ { closed = s₁.closed ++ fds }
      if ltb_ℤ stopped (pos 0)
          then ok (
            returned (pos 2),
            log_program name critical "Server execution failed with error %d." s₂,
          )
          else ok (
            returned (pos 0),
            log_program name info "Server stopped. Closing log and exiting." s₂,
          )

-- LogFile log (args.logfile? args.logfile : "-");
abbrev pub open_program_log : System → TestArgs → Outcome (MsrvResult × LogFile)
open_program_log system args =
    from_filename (some (elim args.logfile [ none ↦ "-" | some name ↦ name ])) system.opened

abbrev pub protocol_of : TestArgs → Protocol
protocol_of args = if args.udp then udp else tcp

-- int serverMain (const TestArgs& args), with fuel for the loops over the descriptors. The server is
-- missing in the result where the log could not be opened.
pub server_main : System → ℕ → TestArgs → Outcome (Exit × Option Server)
unfolding start_server serve
server_main system f args = do
  (opened, log) ← open_program_log system args
  if ltb_ℤ opened (pos 0) then ok (runtime_error, none) else do
    bound ← bind (protocol_of args) 0 system.sockets (start_server system args)
    (exit, s) ← serve "SMPLLIST" (handle f system.host) system f bound
    _ ← destroy_log log
    ok (exit, some s)
