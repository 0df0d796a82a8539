-- ===== src/Sample/Handler/Commands.antt =====
-- The commands of the sample handler, and the data that are no C string.
use magicserver.Prelude.{
  ℕ, ◌≡◌, refl, true, false, Option, some, List, [], ◌∷◌, ◌++◌, ℤ, pos, ok, fault, out_of_bounds,
  Returns, returns, Returns-bind,
}
use magicserver.Errors.{success}
use magicserver.Memory.{Ptr}
use magicserver.Listener.{Descriptor, start_shutdown}
use magicserver.Listener.Removal.{Watches}
use magicserver.Server.{Connection, Server}
use magicserver.Server.Connections.{Connected, Roomy, close_connection-Closed}
use magicserver.Sample.Text.{bytes, is_control, same_text, bye}
use magicserver.Sample.Text.Cutting.{AllPlain, c_string-cut, c_string_unterminated}
use magicserver.Sample.Handler.{command, process_data, write_to, log_sample}

-- Data of bytes none of which ends the text (a control character, or a byte above 0x7f, which is
-- negative as a char), on any server and for either kind of request: the handler reads beyond the
-- end of the data, for no NUL ends them.
pub process_data_unterminated :
    (f : ℕ) (socket : ℤ) (p : Option Ptr) (text : List ℕ) (s : Server)
    → AllPlain text
    → process_data f socket p text s ≡ fault out_of_bounds
unfolding process_data
process_data_unterminated f socket p text s plain = rw (c_string_unterminated text plain)

Connected-write_to :
    {s : Server} {p : Ptr} {c : Connection} {pre post : List Descriptor} (socket : ℤ) (msg : List ℕ)
    → Connected s p c pre post
    → Connected (write_to socket msg s) p c pre post
Connected-write_to socket msg k = record {
  ne_null = k.ne_null;
  object = k.object;
  has_socket = k.has_socket;
  attached = k.attached;
  descriptor = k.descriptor;
  numbered = k.numbered;
  first = k.first;
  alone = k.alone;
  watched = k.watched;
}

quit_plain : AllPlain (bytes "quit")
unfolding is_control
quit_plain = (refl, (refl, (refl, (refl, tt))))

quit_lem : same_text (bytes "quit") (bytes "quit") ≡ true
unfolding same_text
quit_lem = refl

quit-shutdown : same_text (bytes "quit") (bytes "shutdown") ≡ false
unfolding same_text
quit-shutdown = refl

-- "quit" and a byte that ends it (a control character, or one above 0x7f), from a connection that
-- is listened to, with at least as many descriptors behind its own as before it, or none behind:
-- the handler says good-bye on the connection's socket, whatever follows the command, and then
-- closes the connection: its descriptor is gone from the listener, its socket is closed once, and
-- its object has none. The request succeeds.
pub process_data-close_connection :
    {s : Server} {p : Ptr} {c : Connection} {pre post : List Descriptor} (f : ℕ) (b : ℕ)
    (rest : List ℕ)
    → Connected s p c pre post
    → Roomy pre post
    → is_control b ≡ true
    → Returns
        (λ (r, s').
          (r ≡ success)
          × Watches s'.listener (pre ++ post)
          × (s'.closed ≡ s.closed ++ c.conn_socket ∷ [])
          × (s'.written ≡ s.written ++ (c.conn_socket, bye) ∷ [])
          × (s'.connections p ≡ some (record c { conn_socket = pos 0 })))
        (process_data f c.conn_socket (some p) (bytes "quit" ++ b ∷ rest) s)
unfolding process_data command
process_data-close_connection {s} {p} {c} f b rest k room control =
    rw (c_string-cut (bytes "quit") b rest quit_plain control) (
      rw (quit-shutdown, quit_lem)
        (Returns-bind (close_connection-Closed (Connected-write_to c.conn_socket bye k) room)
          λ (r, s') (e, d, object, _). returns (
            e,
            record { sane = d.watched.sane; held = d.watched.held },
            d.closed_once,
            d.same_written,
            object,
          )))

shutdown_plain : AllPlain (bytes "shutdown")
unfolding is_control
shutdown_plain = (refl, (refl, (refl, (refl, (refl, (refl, (refl, (refl, tt))))))))

shutdown_lem : same_text (bytes "shutdown") (bytes "shutdown") ≡ true
unfolding same_text
shutdown_lem = refl

-- "shutdown" and a byte that ends it, from a connection: the handler starts the shutdown of the
-- listener, whatever follows the command, and the message is logged. Nothing else changes.
pub process_data-start_shutdown :
    (f : ℕ) (socket : ℤ) (p : Ptr) (b : ℕ) (rest : List ℕ) (s : Server)
    → is_control b ≡ true
    → process_data f socket (some p) (bytes "shutdown" ++ b ∷ rest) s
      ≡ ok (
        success,
        log_sample "Received message '%s'." (record s { listener = start_shutdown s.listener }),
      )
unfolding process_data command
process_data-start_shutdown f socket p b rest s control =
    rw (c_string-cut (bytes "shutdown") b rest shutdown_plain control) (rw shutdown_lem)
