-- ===== src/Request.antt =====
-- libmsrv/src/msrvrequest.cc and libmsrv/include/magicserver/msrvrequest.h: the classes of requests,
-- and the switchboard RequestHandler::process. A request holds the address of its connection; what
-- the destructor of a request does to a connection is an argument here, and given in Server.
pub mod Dispatch
pub mod Data
pub mod Objects
pub mod Examples
use Prim.Native.Nat.{bit_and}
use magicserver.Prelude.{
  ℕ, ◌+◌, Bool, true, false, not, List, [], ◌∷◌, ℤ, pos, negsuc, ◌==◌, if◌then◌else◌, length,
  Outcome, ok, fault, null_pointer, ◌>>=◌,
}
use magicserver.Errors.{MsrvResult, success}
use magicserver.Memory.{Ptr}

-- Request::requesttype, which also serves as a mask.
abbrev pub new_connection_type : ℕ
new_connection_type = 0x01

abbrev pub stream_data_type : ℕ
stream_data_type = 0x02

abbrev pub datagram_type : ℕ
datagram_type = 0x04

abbrev pub connection_lost_type : ℕ
connection_lost_type = 0x08

abbrev pub shutdown_type : ℕ
shutdown_type = 0x10

abbrev pub timeout_type : ℕ
timeout_type = 0x20

-- mRequestMask & type
unfoldable pub requested : ℕ → ℕ → Bool
requested mask type = not (bit_and mask type == 0)

-- A constructor for each class, with its members; `other` is a class of the application, with the
-- type that it passes to the constructor of Request.
pub data Request : Type 0 where
  new_connection : (socket : ℤ) (connection : Ptr) → Request
  stream_data : (socket : ℤ) (connection : Ptr) (bytes : List ℕ) → Request
  datagram : (socket : ℤ) (bytes : List ℕ) → Request
  connection_lost : (socket : ℤ) (connection : Ptr) → Request
  shutdown_request : Request
  timeout_request : Request
  other : (type : ℕ) → Request

-- int Request::getType () const
unfoldable pub get_type : Request → ℕ
get_type (new_connection s c) = new_connection_type
get_type (stream_data s c b) = stream_data_type
get_type (datagram s b) = datagram_type
get_type (connection_lost s c) = connection_lost_type
get_type shutdown_request = shutdown_type
get_type timeout_request = timeout_type
get_type (other type) = type

-- int Request::socket () const, for the classes of the library
pub request_socket : Request → ℤ
request_socket (new_connection s c) = s
request_socket (stream_data s c b) = s
request_socket (datagram s b) = s
request_socket (connection_lost s c) = s
request_socket r = negsuc 0

-- The methods of a RequestHandler that take one class of requests each.
pub record Handlers (S : Type 0) : Type 0 where
  pub on_new_connection : ℤ → Ptr → S → Outcome (MsrvResult × S)
  pub on_stream_data : ℤ → Ptr → List ℕ → S → Outcome (MsrvResult × S)
  pub on_datagram : ℤ → List ℕ → S → Outcome (MsrvResult × S)
  pub on_connection_lost : ℤ → Ptr → S → Outcome (MsrvResult × S)
  pub on_shutdown : S → Outcome (MsrvResult × S)
  pub on_timeout : S → Outcome (MsrvResult × S)

module _ {S : Type 0} where
  -- dynamic_cast gives NULL for another class, and the switchboard dereferences it.
  pub as_new_connection : Handlers S → Request → S → Outcome (MsrvResult × S)
  as_new_connection h (new_connection s c) = h.on_new_connection s c
  as_new_connection h r = λ _. fault null_pointer

  pub as_stream_data : Handlers S → Request → S → Outcome (MsrvResult × S)
  as_stream_data h (stream_data s c b) = h.on_stream_data s c b
  as_stream_data h r = λ _. fault null_pointer

  pub as_datagram : Handlers S → Request → S → Outcome (MsrvResult × S)
  as_datagram h (datagram s b) = h.on_datagram s b
  as_datagram h r = λ _. fault null_pointer

  pub as_connection_lost : Handlers S → Request → S → Outcome (MsrvResult × S)
  as_connection_lost h (connection_lost s c) = h.on_connection_lost s c
  as_connection_lost h r = λ _. fault null_pointer

  pub as_shutdown : Handlers S → Request → S → Outcome (MsrvResult × S)
  as_shutdown h shutdown_request = h.on_shutdown
  as_shutdown h r = λ _. fault null_pointer

  pub as_timeout : Handlers S → Request → S → Outcome (MsrvResult × S)
  as_timeout h timeout_request = h.on_timeout
  as_timeout h r = λ _. fault null_pointer

  -- The switch of RequestHandler::process. `warn` writes the message on an unknown type.
  pub switch : Handlers S → (ℕ → S → S) → Request → S → Outcome (MsrvResult × S)
  unfolding as_new_connection as_stream_data as_datagram as_connection_lost as_shutdown as_timeout
  switch h warn r s =
      if get_type r == new_connection_type
      then as_new_connection h r s
      else if get_type r == stream_data_type
      then as_stream_data h r s
      else if get_type r == datagram_type
      then as_datagram h r s
      else if get_type r == connection_lost_type
      then as_connection_lost h r s
      else if get_type r == shutdown_type
      then as_shutdown h r s
      else if get_type r == timeout_type
      then as_timeout h r s
      else ok (success, warn (get_type r) s)

  -- MSrvResult RequestHandler::process (Request* pRequest): the switch, then `delete pRequest`.
  pub process :
      Handlers S → (ℕ → S → S) → (Request → S → Outcome S) → Request → S → Outcome (MsrvResult × S)
  unfolding switch get_type
  process h warn delete r s = do (result, s₁) ← switch h warn r s; s₂ ← delete r s₁; ok (result, s₂)

  -- The methods that RequestHandler itself has: they do nothing.
  abbrev pub idle_handlers : Handlers S
  idle_handlers = record {
    on_new_connection = λ _ _ s. ok (success, s);
    on_stream_data = λ _ _ _ s. ok (success, s);
    on_datagram = λ _ _ s. ok (success, s);
    on_connection_lost = λ _ _ s. ok (success, s);
    on_shutdown = λ s. ok (success, s);
    on_timeout = λ s. ok (success, s);
  }
