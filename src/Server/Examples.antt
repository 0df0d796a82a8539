-- ===== src/Server/Examples.antt =====
-- The theorems on servers at a server that listens on socket 3, with a connection on socket 7.
use magicserver.Prelude.{
  ℕ, zero, suc, ap, length, ◌≡◌, refl, arith, inr, true, ◌==ℤ◌, none, some, List, [], ◌∷◌, ◌++◌,
  pos, negsuc, ◌==◌, if◌then◌else◌, ok, fault, dangling, Bool-cases, inl, ltb_ℤ, ◌>>=◌, Returns,
}
use magicserver.Errors.{bind_failed, success, connection_no_socket}
use magicserver.Lock.{lock, new_lock}
use magicserver.Listener.Removal.{Watches}
use magicserver.Listener.Examples.{
  three, seven, nine, listener, listener-Watches, three_listener, three_listener-Watches,
}
use magicserver.Request.{requested}
use magicserver.Server.{
  new_pool_state, tcp, udp, delete_request, Connection, Server, default_mask, close_connection,
}
use magicserver.Server.Bind.{SocketCalls, bind}
use magicserver.Server.Bind.Laws.{first_failure, address_failure, Bound, bind_all_or_nothing}
use magicserver.Server.Connections.{Connected, Closed, close_connection-Closed}
use magicserver.Server.Events.{read_loop, read_error, block, read_buffer_len, accept, lost_event}
use magicserver.Memory.{Memory, null}
use magicserver.Server.Events.Buffer.{read_into}
use magicserver.Server.Events.Buffer.Growth.{IsBuffer}
use magicserver.Server.Events.Buffer.Lifetime.{read_into-read_loop}
use magicserver.Server.Events.Unasked.{lost_event_unasked}
use magicserver.Server.Events.Lost.{default_process, lost_event-Closed}
use magicserver.Server.Events.Accepting.{connected, lost_event-accept}
use magicserver.Server.Shutdown.{announce, shutdown}
use magicserver.Server.Shutdown.Several.{shutdown_several}
use magicserver.Server.Shutdown.Single.{shutdown_single}
use magicserver.Request.{idle_handlers, shutdown_request, shutdown_type}
use magicserver.Request.Dispatch.{process-method}
use magicserver.Server.Events.Reading.{read_loop-concat}

-- Its peer is 127.0.0.1.
abbrev pub connection : Connection
connection = record { conn_socket = pos 7; has_listener = true; address = 0x0100007f }

abbrev pub server : Server
server = record {
  listener = listener;
  socket = pos 3;
  protocol = tcp;
  request_mask = default_mask;
  last_connection = 1;
  connections = λ p. if p == 1 then some connection else none;
  closed = [];
  written = [];
  pool = new_pool_state;
}

unfoldable pub server-Connected : Connected server 1 connection (three ∷ []) []
unfolding ◌==ℤ◌
server-Connected = record {
  ne_null = omega arith;
  object = refl;
  has_socket = refl;
  attached = refl;
  descriptor = seven;
  numbered = refl;
  first = (refl, tt);
  alone = tt;
  watched = listener-Watches;
}

close_connection-Closed_example :
    Returns
      (λ (r, s').
        (r ≡ success)
        × Closed server s' connection (three ∷ []) []
        × (s'.connections 1 ≡ some (record connection { conn_socket = pos 0 }))
        × (close_connection 1 s' ≡ ok (connection_no_socket, s')))
      (close_connection 1 server)
close_connection-Closed_example = close_connection-Closed server-Connected (inr refl)

abbrev pub warn : ℕ → Server → Server
warn type s = s

lost_event-Closed_example :
    Returns
      (λ s'. Closed server s' connection (three ∷ []) [] × (s'.connections 1 ≡ none))
      (lost_event (default_process warn) none (pos 7) 1 server)
unfolding requested
lost_event-Closed_example = lost_event-Closed warn server-Connected (inr refl) refl

Connected_mask :
    (mask : ℕ)
    → Connected server 1 connection (three ∷ []) []
    → Connected (record server { request_mask = mask }) 1 connection (three ∷ []) []
Connected_mask mask k = record {
  ne_null = k.ne_null;
  object = k.object;
  has_socket = k.has_socket;
  attached = k.attached;
  descriptor = k.descriptor;
  numbered = k.numbered;
  first = k.first;
  alone = k.alone;
  watched = k.watched;
}

lost_event_unasked_example :
    Returns
      (λ s'.
        Watches s'.listener (three ∷ []) × (s'.closed ≡ []) × (s'.connections 1 ≡ some connection))
      (lost_event (default_process warn) none (pos 7) 1 (record server { request_mask = 1 }))
unfolding requested
lost_event_unasked_example =
    lost_event_unasked (default_process warn) none (Connected_mask 1 server-Connected) (inr refl)
      refl

-- Socket 9 cannot be bound.
abbrev calls : SocketCalls
calls = record { sockfd = pos 9; setsockopt = pos 0; bound = negsuc 0; listening = pos 0 }

bind_all_or_nothing_example :
    Returns
      (Bound (some bind_failed) calls udp (three ∷ seven ∷ []) server)
      (bind udp 0 calls server)
unfolding first_failure address_failure ltb_ℤ
bind_all_or_nothing_example = bind_all_or_nothing udp 0 calls listener-Watches

-- As many zeros.
zeros : ℕ → List ℕ
zeros zero = []
zeros (suc n) = 0 ∷ zeros n

length-zeros : (n : ℕ) → length (zeros n) ≡ n
unfolding zeros
length-zeros zero = refl
length-zeros (suc n) = ap suc (length-zeros n)

-- A call of read that fills the buffer, and one that gives two bytes.
two_reads :
    (read_loop (block (zeros read_buffer_len) ∷ block (65 ∷ 66 ∷ []) ∷ []) []
      ≡ ok (pos 2, (zeros read_buffer_len ++ []) ++ 65 ∷ 66 ∷ []))
    × (read_loop (block (zeros read_buffer_len) ∷ read_error ∷ []) []
        ≡ ok (negsuc 0, zeros read_buffer_len ++ []))
two_reads =
    read_loop-concat (zeros read_buffer_len ∷ []) (65 ∷ 66 ∷ []) []
      (length-zeros read_buffer_len, tt) (omega arith)

lost_event-accept_example :
    Returns
      (λ s'.
        Closed server s' (connected (pos 9) 0x0100007f) (three ∷ seven ∷ []) []
        × (s'.connections 2 ≡ none))
      (accept (default_process warn) none (pos 9) 0x0100007f server >>= λ (_, s₁).
        lost_event (default_process warn) none (pos 9) 2 s₁)
unfolding requested ltb_ℤ ◌==ℤ◌
lost_event-accept_example =
    lost_event-accept {s = server} warn (pos 9) 0x0100007f listener-Watches refl (refl, (refl, tt))
      refl

-- A second connection, on socket 9.
abbrev pub other_connection : Connection
other_connection = record connection { conn_socket = pos 9 }

abbrev pub busy_server : Server
busy_server = record server {
  listener = three_listener;
  last_connection = 2;
  connections =
      λ p. if p == 1 then some connection else if p == 2 then some other_connection else none;
}

busy-Connected : Connected busy_server 1 connection (three ∷ []) (nine ∷ [])
unfolding ◌==ℤ◌
busy-Connected = record {
  ne_null = omega arith;
  object = refl;
  has_socket = refl;
  attached = refl;
  descriptor = seven;
  numbered = refl;
  first = (refl, tt);
  alone = (refl, tt);
  watched = three_listener-Watches;
}

announced : (s : Server) → announce (default_process warn) s ≡ ok (success, s)
unfolding announce delete_request
announced s = elim (Bool-cases (requested s.request_mask shutdown_type)) [
  | inl e ↦
      rw (e, process-method idle_handlers warn delete_request s shutdown_request (λ t. cc)) refl
  | inr e ↦ rw e refl
]

shutdown_several_example : shutdown (default_process warn) 2 busy_server ≡ fault dangling
unfolding ◌==ℤ◌ busy-Connected
shutdown_several_example =
    shutdown_several (default_process warn) busy_server success 0 (announced busy_server)
      busy-Connected refl refl refl

shutdown_single_example :
    Returns
      (λ (r, s').
        (r ≡ success)
        × Watches s'.listener []
        × (s'.closed ≡ pos 7 ∷ pos 3 ∷ [])
        × (s'.listener.thread_lock ≡ lock (lock new_lock))
        × (s'.written ≡ []))
      (shutdown (default_process warn) 2 server)
unfolding ◌==ℤ◌ server-Connected
shutdown_single_example =
    shutdown_single (default_process warn) server success 0 (announced server) server-Connected refl
      refl refl

abbrev no_storage : Memory ℕ
no_storage = record { last = 0; block = λ p. none }

read_into-read_loop_example :
    Returns
      (λ (count', p, n, m). (count' ≡ pos 2) × (n ≡ 2) × IsBuffer no_storage m p (65 ∷ 66 ∷ []))
      (read_into (λ n. true) (block (65 ∷ 66 ∷ []) ∷ []) null 0 no_storage)
read_into-read_loop_example =
    read_into-read_loop (λ n. true) (block (65 ∷ 66 ∷ []) ∷ []) (pos 2) (65 ∷ 66 ∷ []) (λ p h. refl)
      (omega arith) (λ n h. refl) (read_loop-concat [] (65 ∷ 66 ∷ []) [] tt (omega arith)).0
