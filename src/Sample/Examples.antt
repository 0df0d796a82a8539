-- ===== src/Sample/Examples.antt =====
-- The theorems on the sample server at a server with the connections 7 and 9.
use Prim.Native.String.{String}
use magicserver.Prelude.{
  Bool, true, none, ◌≡◌, replicate, negsuc, ltb_ℤ, refl, arith, inr, some, [], ◌∷◌, ◌++◌, ℤ, pos,
  ◌==ℤ◌, ◌==◌, if◌then◌else◌, ok, fault, dangling, out_of_bounds, Returns,
}
use magicserver.Errors.{success}
use magicserver.Memory.{Ptr}
use magicserver.Listener.Removal.{Watches}
use magicserver.Listener.Examples.{three, seven, nine, three_listener-Watches}
use magicserver.Server.{Server}
use magicserver.Server.Examples.{
  connection, server, server-Connected, other_connection, busy_server,
}
use magicserver.Sample.Text.{bytes, is_control, shutting_down, same_text, answer, relayed, bye}
use magicserver.Sample.Handler.{process_data, log_sample}
use magicserver.Sample.Handler.Relay.{Serves}
use magicserver.Sample.Handler.Commands.{process_data_unterminated, process_data-close_connection}
use magicserver.Listener.Listen.{failed, beyond_set}
use magicserver.Listener.Listen.{ready, listen}
use magicserver.Sample.Program.Visit.{listen-accept}
use magicserver.Sample.Program.Running.{server_main-visit}
use magicserver.Sample.Handler.Greeting.{greeting}
use magicserver.Container.Array.Contents.{full}
use magicserver.Listener.Examples.{listener, array}
use magicserver.Sample.Program.{EventCalls, server_listener}
use magicserver.Sample.Pooled.{worker_main}
use magicserver.Sample.Pooled.Failing.{worker_main-failed}
use magicserver.Sample.Program.Serving.{Ended}
use magicserver.Server.Bind.Laws.{address_failure, first_failure}
use magicserver.Worker.{finished, testing}
use magicserver.Sample.Program.{System, handle, server_main}
use magicserver.Sample.Program.Relaying.{descriptor_event-others}
use magicserver.Request.{requested}
use magicserver.Server.Events.{block, descriptor_event}
use magicserver.Sample.Program.Failing.{server_main-failed}
use magicserver.Sample.Arguments.{returned, new_test_args}

busy-Serves :
    Serves (pos 3) busy_server.connections (seven ∷ nine ∷ []) (connection ∷ other_connection ∷ [])
unfolding ◌==ℤ◌
busy-Serves = (refl, omega arith, refl, (refl, omega arith, refl, tt))

-- "hi" from socket 7, in one call of read: the other connection is on socket 9.
descriptor_event-others_example :
    descriptor_event
      (handle 4 none)
      none
      (negsuc 0)
      0
      (block (bytes "hi" ++ 10 ∷ 13 ∷ []) ∷ [])
      (pos 7)
      1
      busy_server
    ≡ ok (
      success,
      log_sample "Received message '%s'." (record busy_server {
        written = (pos 7, answer (bytes "hi")) ∷ (pos 9, relayed (bytes "hi")) ∷ [];
      }),
    )
unfolding is_control same_text requested ◌==ℤ◌
descriptor_event-others_example =
    descriptor_event-others (connection ∷ other_connection ∷ []) busy_server 4 none (negsuc 0) 0
      (pos 7) 1 [] (bytes "hi" ++ 10 ∷ 13 ∷ []) [] (bytes "hi") 10 (13 ∷ []) three_listener-Watches
      refl busy-Serves (omega arith) refl refl refl tt (omega arith) refl (refl, (refl, tt)) refl
      (refl, refl)

without_end : process_data 4 (pos 7) (some 1) (bytes "hi") busy_server ≡ fault out_of_bounds
unfolding is_control
without_end =
    process_data_unterminated 4 (pos 7) (some 1) (bytes "hi") busy_server (refl, (refl, tt))

process_data-close_connection_example :
    Returns
      (λ (r, s').
        (r ≡ success)
        × Watches s'.listener (three ∷ [])
        × (s'.closed ≡ pos 7 ∷ [])
        × (s'.written ≡ (pos 7, bye) ∷ [])
        × (s'.connections 1 ≡ some (record connection { conn_socket = pos 0 })))
      (process_data 4 (pos 7) (some 1) (bytes "quit" ++ 10 ∷ []) server)
unfolding is_control
process_data-close_connection_example =
    process_data-close_connection 4 10 [] server-Connected (inr refl) refl

-- An atoi that answers 80.
abbrev always_80 : String → ℤ
always_80 port = pos 80

-- A system where the socket is 3, and select fails twelve times.
abbrev broken_system : System
broken_system = record {
  opened = none;
  daemonized = pos 0;
  sockets = record { sockfd = pos 3; setsockopt = pos 0; bound = pos 0; listening = pos 0 };
  answers = replicate 11 failed ++ failed ∷ [];
  events = λ fd p s. record { accepted = negsuc 0; address = 0; reads = [] };
  host = none;
  memory = record { last = 0; block = λ p. none };
}

server_main-failed_example :
    Returns
      (λ (exit, server).
        (s' : Server) × (server ≡ some s')
        × Watches s'.listener []
        × Ended none (pos 3) exit s'.closed)
      (server_main broken_system 2 new_test_args)
unfolding ltb_ℤ address_failure first_failure ◌==ℤ◌
server_main-failed_example =
    server_main-failed broken_system 0 (failed ∷ []) new_test_args (λ p h. refl) refl refl refl

-- Each time, a worker may take two requests.
worker_main-failed_example :
    Returns
      (λ (exit, server).
        (s' : Server) × (server ≡ some s')
        × (s'.pool.is_shutdown ≡ true)
        × Watches s'.listener []
        × Ended none (pos 3) exit s'.closed)
      (worker_main broken_system (λ s. 2) finished 2 new_test_args)
    × (worker_main broken_system (λ s. 2) testing 2 new_test_args ≡ fault dangling)
unfolding ltb_ℤ address_failure first_failure ◌==ℤ◌
worker_main-failed_example =
    worker_main-failed broken_system (λ s. 2) testing 0 (failed ∷ []) new_test_args (λ p h. refl)
      refl refl refl (λ e. cc)

-- Select names the client's socket.
abbrev seven_changed : ℤ → Bool
seven_changed fd = fd ==ℤ pos 7

-- A read of the client's socket gives the command and the end of a line.
abbrev typed : ℤ → Ptr → Server → EventCalls
typed fd p s = record {
  accepted = negsuc 0;
  address = 0;
  reads = block (bytes "shutdown" ++ 10 ∷ []) ∷ [];
}

-- The server before its first client.
abbrev quiet_server : Server
quiet_server = record server {
  listener = record listener {
    descriptors = record array { item_count = pos 1 };
    storage = record { last = 1; block = λ p. if p == 1 then some (full (three ∷ [])) else none };
  };
  last_connection = 0;
  connections = λ p. none;
}

quiet-Watches : Watches quiet_server.listener (three ∷ [])
quiet-Watches = record {
  sane = λ p h. ground arith;
  held = record { count = refl; stored = record { ne_null = omega arith; stored = refl } };
}

-- accept gives socket 7, which then gives the command; the client's address has the name "host".
abbrev visited : ℤ → Ptr → Server → EventCalls
visited fd p s = record (typed fd p s) { accepted = pos 7; address = 0x0100007f }

abbrev three_changed : ℤ → Bool
three_changed fd = fd ==ℤ pos 3

listen-accept_example :
    Returns
      (λ (r, s', fds).
        (r ≡ success)
        × (fds ≡ [])
        × Watches s'.listener []
        × (s'.closed ≡ pos 7 ∷ pos 3 ∷ [])
        × (s'.written
            ≡ (pos 7, greeting (some (bytes "host")) 0x0100007f) ∷ (pos 7, shutting_down) ∷ []))
      (listen
        (server_listener (handle 3 (some (bytes "host"))) visited 3)
        3
        (ready three_changed ∷ ready seven_changed ∷ [])
        quiet_server)
unfolding ◌==ℤ◌ beyond_set ltb_ℤ is_control requested
listen-accept_example =
    listen-accept 0 (some (bytes "host")) (pos 7) 0x0100007f visited three_changed seven_changed []
      [] (bytes "shutdown" ++ 10 ∷ []) [] 10 [] quiet_server quiet-Watches refl refl refl refl
      (refl, (refl, tt)) refl refl refl refl refl refl (λ t. (refl, refl)) refl refl (λ t. refl) tt
      (omega arith) refl refl

-- The same system, where select and the other calls answer as for a visit.
abbrev visited_system : System
visited_system = record broken_system {
  answers = ready three_changed ∷ ready seven_changed ∷ [];
  events = visited;
  host = some (bytes "host");
}

server_main-visit_example :
    Returns
      (λ (exit, server).
        (s' : Server) × (server ≡ some s')
        × (exit ≡ returned (pos 0))
        × Watches s'.listener []
        × (s'.closed ≡ pos 7 ∷ pos 3 ∷ [])
        × (s'.written
            ≡ (pos 7, greeting (some (bytes "host")) 0x0100007f) ∷ (pos 7, shutting_down) ∷ []))
      (server_main visited_system 3 new_test_args)
unfolding ◌==ℤ◌ beyond_set ltb_ℤ is_control
server_main-visit_example =
    server_main-visit visited_system 0 (pos 7) 0x0100007f three_changed seven_changed [] []
      (bytes "shutdown" ++ 10 ∷ []) [] 10 [] new_test_args (λ p h. refl) refl refl refl refl refl
      refl refl refl refl refl refl refl refl (λ t. (refl, refl)) refl refl (λ t. refl) tt
      (omega arith) refl refl
