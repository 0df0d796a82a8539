-- ===== src/Sample/Handler/Greeting.antt =====
-- What the sample handler does with a new connection.
use magicserver.Prelude.{
  ℕ, ◌≡◌, ◌≢◌, refl, Option, none, some, List, [], ◌∷◌, ◌++◌, ℤ, ok, ne→==_false,
}
use magicserver.Errors.{success}
use magicserver.Memory.{Ptr, null}
use magicserver.Listener.{Descriptor}
use magicserver.Listener.Removal.{Watches}
use magicserver.Server.{Connection, Server, load_connection}
use magicserver.Sample.Text.{welcome, welcome_stranger}
use magicserver.Sample.Handler.{new_connection_request, write_to, log_sample}

-- The text for a client, by the name that gethostbyaddr gives its address, if any.
abbrev pub greeting : Option (List ℕ) → ℕ → List ℕ
greeting none address = welcome_stranger
greeting (some name) address = welcome name address

-- The server has written this, and changed its log besides.
pub record Greeted (s s' : Server) (ds : List Descriptor) (fd : ℤ) (msg : List ℕ) : Type 0 where
  pub watched : Watches s'.listener ds
  pub same_status : s'.listener.shutdown_status ≡ s.listener.shutdown_status
  pub written : s'.written ≡ s.written ++ (fd, msg) ∷ []
  pub same_connections : s'.connections ≡ s.connections
  pub same_closed : s'.closed ≡ s.closed
  pub same_socket : s'.socket ≡ s.socket
  pub same_mask : s'.request_mask ≡ s.request_mask
  pub same_protocol : s'.protocol ≡ s.protocol

pub new_connection_request_lem :
    {p : Ptr} {c : Connection} {s : Server} {ds : List Descriptor} (host : Option (List ℕ)) (fd : ℤ)
    → p ≢ null
    → s.connections p ≡ some c
    → Watches s.listener ds
    → (s' : Server) × (new_connection_request host fd p s ≡ ok (success, s'))
      × Greeted s s' ds fd (greeting host c.address)
unfolding new_connection_request load_connection
new_connection_request_lem {p} {c} {s} none fd ne object w = (
  write_to fd welcome_stranger (log_sample "Resolving address %s failed with error %d; %s." s),
  rw (ne→==_false p null ne, object) refl,
  record {
    watched = record { sane = w.sane; held = w.held };
    same_status = refl;
    written = refl;
    same_connections = refl;
    same_closed = refl;
    same_socket = refl;
    same_mask = refl;
    same_protocol = refl;
  },
)
new_connection_request_lem {p} {c} {s} (some name) fd ne object w = (
  write_to fd (welcome name c.address) s,
  rw (ne→==_false p null ne, object) refl,
  record {
    watched = w;
    same_status = refl;
    written = refl;
    same_connections = refl;
    same_closed = refl;
    same_socket = refl;
    same_mask = refl;
    same_protocol = refl;
  },
)
