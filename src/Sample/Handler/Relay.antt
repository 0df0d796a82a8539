-- ===== src/Sample/Handler/Relay.antt =====
-- The loops over the connections, and the response of the handler to a text that is no command.
use magicserver.Prelude.{
  ap, if◌then◌else◌, ℕ, zero, suc, ◌<◌, ◌≡◌, Bool-cases, inl, inr, map, ◌≢◌, refl, sym, subst, ◌∙◌,
  true, false, Option, none, some, List, [], ◌∷◌, ◌++◌, append_assoc, append-nil, arith, ℤ, ◌==ℤ◌,
  ne→==_false, length, length-append, ok,
}
use magicserver.Errors.{success}
use magicserver.Memory.{Ptr, null}
use magicserver.Container.Array.{Array}
use magicserver.Container.Array.Contents.{IsArray}
use magicserver.Listener.{Descriptor}
use magicserver.Listener.Removal.{Watches}
use magicserver.Server.{Connection, Server, load_connection}
use magicserver.Server.Shutdown.Walk.{
  iterator, conn_iter_any, conn_get_at, conn_next_any, NoneOwn, more_left, none_left,
}
use magicserver.Sample.Text.{shutting_down, bytes, is_control, same_text, answer, relayed}
use magicserver.Sample.Text.Cutting.{AllPlain, c_string-cut}
use magicserver.Sample.Handler.{
  for_connections, relay_to, respond, shutdown_request, command, process_data, log_sample, write_to,
}

-- The descriptors are those of the connections `cs`, none of them the server's own.
abbrev pub Serves : ℤ → (Ptr → Option Connection) → List Descriptor → List Connection → Type 0
Serves socket connections [] [] = Unit {0}
Serves socket connections (d ∷ ds) (c ∷ cs) =
    ((d.fd ==ℤ socket) ≡ false)
    × (d.object ≢ null)
    × (connections d.object ≡ some c)
    × Serves socket connections ds cs
Serves socket connections [] (c ∷ cs) = ⊥
Serves socket connections (d ∷ ds) [] = ⊥

-- What is written for these connections.
abbrev pub all_writes : (Connection → List (ℤ × List ℕ)) → List Connection → List (ℤ × List ℕ)
all_writes writes [] = []
all_writes writes (c ∷ cs) = writes c ++ all_writes writes cs

Serves-NoneOwn :
    (s : Server) (ds : List Descriptor) (cs : List Connection)
    → Serves s.socket s.connections ds cs
    → NoneOwn s.socket ds
Serves-NoneOwn s [] [] h = tt
Serves-NoneOwn s [] (c ∷ cs) h = elim h [ ]
Serves-NoneOwn s (d ∷ ds) [] h = elim h [ ]
Serves-NoneOwn s (d ∷ ds) (c ∷ cs) (own, p, at, h) = (own, Serves-NoneOwn s ds cs h)

load_lem :
    {p : Ptr} {c : Connection} (s : Server)
    → p ≢ null
    → s.connections p ≡ some c
    → load_connection p s ≡ ok c
unfolding load_connection
load_lem {p} s ne at = rw (ne→==_false p null ne) (rw at)

-- From any position, the loop visits each connection that follows, once and in order.
for_connections-all :
    {a : Array} (s : Server) (writes : Connection → List (ℤ × List ℕ)) (done rest : List Descriptor)
    (cs : List Connection) (w : List (ℤ × List ℕ)) (f : ℕ)
    → IsArray s.listener.storage a (done ++ rest)
    → Serves s.socket s.connections rest cs
    → length rest < f
    → for_connections f writes (iterator (length done) a) (record s { written = w })
      ≡ ok (record s { written = w ++ all_writes writes cs })
unfolding for_connections
for_connections-all s writes done [] (c ∷ cs) w f is h fuel = elim h [ ]
for_connections-all s writes done (d ∷ ds) [] w f is h fuel = elim h [ ]
for_connections-all s writes done [] [] w zero is h fuel = elim fuel [ ]
for_connections-all s writes done (d ∷ ds) (c ∷ cs) w zero is h fuel = elim fuel [ ]
for_connections-all {a} s writes done [] [] w (suc f) is h fuel =
    rw (none_left (length done) is (omega (arith, length-append done [])), for_connections)
      (rw (append-nil w))
for_connections-all {a} s writes done (d ∷ ds) (c ∷ cs) w (suc f) is (own, p, at, h) fuel =
    let s₁ : Server = record s { written = w } in
    let s₂ : Server = record s { written = w ++ writes c } in
    rw (more_left (length done) is (omega (arith, length-append done (d ∷ ds))), for_connections)
      (rw (conn_get_at s₁ done d ds is) (
        rw (load_lem s₁ p at) (
          rw (conn_next_any f s₂ done d ds is (Serves-NoneOwn s ds cs h), for_connections)
            (for_connections-all s writes (done ++ d ∷ []) ds cs (w ++ writes c) f
                (subst (IsArray s.listener.storage a) (sym (append_assoc done (d ∷ []) ds)) is) h
                (omega (arith, fuel))
              ∙ rw (append_assoc w (writes c) (all_writes writes cs)) refl))))

-- The text is no command. A datagram has no connection that "quit" could close.
abbrev pub NoCommand : Option Ptr → List ℕ → Type 0
NoCommand none text = same_text text (bytes "shutdown") ≡ false
NoCommand (some p) text =
    (same_text text (bytes "shutdown") ≡ false) × (same_text text (bytes "quit") ≡ false)

-- The connections on other sockets than this one.
abbrev pub others : ℤ → List Connection → List Connection
others socket [] = []
others socket (c ∷ cs) = if c.conn_socket ==ℤ socket then others socket cs else c ∷ others socket cs

-- One message for each of these connections.
abbrev pub message_to : List ℕ → List Connection → List (ℤ × List ℕ)
message_to msg cs = map (λ (c : Connection). (c.conn_socket, msg)) cs

relay_to-others :
    (socket : ℤ) (msg : List ℕ) (cs : List Connection)
    → all_writes (relay_to socket msg) cs ≡ message_to msg (others socket cs)
unfolding relay_to
relay_to-others socket msg [] = refl
relay_to-others socket msg (c ∷ cs) = elim (Bool-cases (c.conn_socket ==ℤ socket)) [
  | inl e ↦ rw e (relay_to-others socket msg cs)
  | inr e ↦ rw e (ap (λ w. (c.conn_socket, msg) ∷ w) (relay_to-others socket msg cs))
]

all_writes-message_to :
    (msg : List ℕ) (cs : List Connection)
    → all_writes (λ c. (c.conn_socket, msg) ∷ []) cs ≡ message_to msg cs
all_writes-message_to msg [] = refl
all_writes-message_to msg (c ∷ cs) =
    ap (λ w. (c.conn_socket, msg) ∷ w) (all_writes-message_to msg cs)

module _ {d : Descriptor} {ds : List Descriptor} (cs : List Connection) (s : Server)
    (watched : Watches s.listener (d ∷ ds)) (own : (d.fd ==ℤ s.socket) ≡ true)
    (serves : Serves s.socket s.connections ds cs) where
  -- The state after the answer to the sender and the message to the others.
  abbrev answered : ℤ → List ℕ → Server
  answered socket text = record s {
    written =
        (s.written ++ (socket, answer text) ∷ []) ++ message_to (relayed text) (others socket cs);
  }

  respond_lem :
      (f : ℕ) (socket : ℤ) (text : List ℕ)
      → length (d ∷ ds) < f
      → respond f socket text s ≡ ok (answered socket text)
  unfolding respond
  respond_lem zero socket text fuel = elim fuel [ ]
  respond_lem (suc zero) socket text fuel = absurd (omega (arith, fuel))
  respond_lem (suc (suc f)) socket text fuel =
      rw
        (conn_iter_any f (write_to socket (answer text) s) watched own
          (Serves-NoneOwn s ds cs serves))
        (rw (← relay_to-others socket (relayed text) cs) (
          for_connections-all s (relay_to socket (relayed text)) (d ∷ []) ds cs
            (s.written ++ (socket, answer text) ∷ []) (suc (suc f)) watched.held serves
            (omega (arith, fuel))))

  command_lem :
      (f : ℕ) (socket : ℤ) (p : Option Ptr) (text : List ℕ)
      → length (d ∷ ds) < f
      → NoCommand p text
      → command f socket p text s ≡ ok (success, answered socket text)
  unfolding command
  command_lem f socket none text fuel other = rw other (rw (respond_lem f socket text fuel))
  command_lem f socket (some p) text fuel (other, other') =
      rw other (rw other' (rw (respond_lem f socket text fuel)))

  -- On a server that watches its own socket first, and then those of the connections `cs`, data
  -- whose text, up to the first byte that ends it (a control character, or one above 0x7f), is no
  -- command: the sender gets the answer, then each connection with another socket gets the relayed
  -- text, once and in the order of the descriptors, and the message is logged. Nothing else
  -- changes. With more fuel than descriptors the loop ends.
  pub process_data-others :
      (f : ℕ) (socket : ℤ) (p : Option Ptr) (text : List ℕ) (b : ℕ) (rest : List ℕ)
      → length (d ∷ ds) < f
      → AllPlain text
      → is_control b ≡ true
      → NoCommand p text
      → process_data f socket p (text ++ b ∷ rest) s
        ≡ ok (
          success,
          log_sample "Received message '%s'." (record s {
            written =
                (s.written ++ (socket, answer text) ∷ [])
                ++ message_to (relayed text) (others socket cs);
          }),
        )
  unfolding process_data
  process_data-others f socket p text b rest fuel plain control other =
      rw (c_string-cut text b rest plain control) (rw (command_lem f socket p text fuel other))

  -- On a server that watches its own socket first, and then those of the connections `cs`, the sample
  -- handler's answer to a shutdown request writes the message to each of these connections, once and in
  -- the order of the descriptors, and changes only the log besides; it ends with more fuel than
  -- descriptors.
  pub shutdown_request_lem :
      (f : ℕ)
      → length (d ∷ ds) < f
      → shutdown_request f s
        ≡ ok (
          success,
          log_sample "Server is shutting down."
              (record s { written = s.written ++ message_to shutting_down cs }),
        )
  unfolding shutdown_request
  shutdown_request_lem zero fuel = elim fuel [ ]
  shutdown_request_lem (suc zero) fuel = absurd (omega (arith, fuel))
  shutdown_request_lem (suc (suc f)) fuel =
      let told : Server = log_sample "Server is shutting down." s in
      let still : Watches told.listener (d ∷ ds) = record {
        sane = watched.sane;
        held = watched.held;
      } in
      rw (conn_iter_any f told still own (Serves-NoneOwn s ds cs serves)) (
        rw (
          for_connections-all told (λ c. (c.conn_socket, shutting_down) ∷ []) (d ∷ []) ds cs
              s.written (suc (suc f)) watched.held serves (omega (arith, fuel)),
          ← all_writes-message_to shutting_down cs,
        ))
