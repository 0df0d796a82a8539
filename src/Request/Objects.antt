-- ===== src/Request/Objects.antt =====
-- libmsrv/src/msrvrequest.cc and libmsrv/include/magicserver/msrvrequest.h: the constructors of the
-- request classes. Request is a virtual base: the class that is created initialises it, and what
-- ConnectionRequest and DataRequest pass to its constructor is not used.
use magicserver.Prelude.{ℕ, ◌≡◌, refl, List, ℤ, negsuc, Option, none, some}
use magicserver.Memory.{Ptr}
use magicserver.Request.{
  Request, new_connection, stream_data, datagram, connection_lost, shutdown_request,
  timeout_request, get_type, request_socket, new_connection_type, stream_data_type, datagram_type,
  connection_lost_type, shutdown_type, timeout_type,
}
use magicserver.Request.Data.{DataRequest, new_data_request}

-- The class that was created, which dynamic_cast looks at.
pub data RequestClass : Type 0 where
  new_connection_class stream_data_class datagram_class connection_lost_class : RequestClass
  shutdown_class timeout_class : RequestClass

-- Class Request.
pub record RequestPart : Type 0 where
  pub socket : ℤ
  pub request_type : ℕ
  pub server_listener : Ptr

-- A request object: its class, and the members of each base class, if it has that one.
pub record RequestObject : Type 0 where
  pub class : RequestClass
  pub base : RequestPart
  pub connection : Option Ptr
  pub contents : Option DataRequest

-- Request::Request
pub request_part : ℤ → ℕ → Ptr → RequestPart
request_part socket reqt listener = record {
  socket = socket;
  request_type = reqt;
  server_listener = listener;
}

-- What ConnectionRequest::ConnectionRequest sets itself: mrpConn.
pub connection_part : Ptr → Option Ptr
connection_part conn = some conn

-- NewConnectionRequest::NewConnectionRequest
pub make_new_connection : ℤ → Ptr → Ptr → RequestObject
unfolding request_part connection_part
make_new_connection socket conn listener = record {
  class = new_connection_class;
  base = request_part socket new_connection_type listener;
  connection = connection_part conn;
  contents = none;
}

-- StreamDataRequest::StreamDataRequest
pub make_stream_data : ℤ → Ptr → Ptr → RequestObject
unfolding request_part connection_part
make_stream_data socket conn listener = record {
  class = stream_data_class;
  base = request_part socket stream_data_type listener;
  connection = connection_part conn;
  contents = some new_data_request;
}

-- DatagramRequest::DatagramRequest
pub make_datagram : ℤ → Ptr → RequestObject
unfolding request_part
make_datagram socket listener = record {
  class = datagram_class;
  base = request_part socket datagram_type listener;
  connection = none;
  contents = some new_data_request;
}

-- ConnectionLostRequest::ConnectionLostRequest
pub make_connection_lost : ℤ → Ptr → Ptr → RequestObject
unfolding request_part connection_part
make_connection_lost socket conn listener = record {
  class = connection_lost_class;
  base = request_part socket connection_lost_type listener;
  connection = connection_part conn;
  contents = none;
}

-- ShutdownRequest::ShutdownRequest
pub make_shutdown : Ptr → RequestObject
unfolding request_part
make_shutdown listener = record {
  class = shutdown_class;
  base = request_part (negsuc 0) shutdown_type listener;
  connection = none;
  contents = none;
}

-- TimeoutRequest::TimeoutRequest
pub make_timeout : Ptr → RequestObject
unfolding request_part
make_timeout listener = record {
  class = timeout_class;
  base = request_part (negsuc 0) timeout_type listener;
  connection = none;
  contents = none;
}

-- The objects that the constructors make, with the request that the arguments of the constructor and
-- these bytes are, and the address of its listener.
pub data Constructed (bs : List ℕ) (listener : Ptr) : RequestObject → Request → Type 0 where
  by_new_connection :
      (socket : ℤ) (conn : Ptr)
      → Constructed bs listener
          (make_new_connection socket conn listener)
          (new_connection socket conn)
  by_stream_data :
      (socket : ℤ) (conn : Ptr)
      → Constructed bs listener (make_stream_data socket conn listener) (stream_data socket conn bs)
  by_datagram :
      (socket : ℤ) → Constructed bs listener (make_datagram socket listener) (datagram socket bs)
  by_connection_lost :
      (socket : ℤ) (conn : Ptr)
      → Constructed bs listener
          (make_connection_lost socket conn listener)
          (connection_lost socket conn)
  by_shutdown : Constructed bs listener (make_shutdown listener) shutdown_request
  by_timeout : Constructed bs listener (make_timeout listener) timeout_request

-- The connection of a request.
abbrev pub connection_of : Request → Option Ptr
connection_of (new_connection socket conn) = some conn
connection_of (stream_data socket conn bs) = some conn
connection_of (connection_lost socket conn) = some conn
connection_of r = none

-- The part for data in an object for a request that has just been made.
abbrev pub initial_data : Request → Option DataRequest
initial_data (stream_data socket conn bs) = some new_data_request
initial_data (datagram socket bs) = some new_data_request
initial_data r = none

-- The request that an object of a class is, once it has these bytes, if it has the parts of the class.
pub request_of : RequestClass → RequestObject → List ℕ → Option Request
request_of new_connection_class o bs = elim o.connection [
  | none ↦ none
  | some c ↦ some (new_connection o.base.socket c)
]
request_of stream_data_class o bs = elim o.connection [
  | none ↦ none
  | some c ↦ some (stream_data o.base.socket c bs)
]
request_of datagram_class o bs = some (datagram o.base.socket bs)
request_of connection_lost_class o bs = elim o.connection [
  | none ↦ none
  | some c ↦ some (connection_lost o.base.socket c)
]
request_of shutdown_class o bs = some shutdown_request
request_of timeout_class o bs = some timeout_request

-- What a constructor makes is a request of its class: the object has the parts of that class and no
-- others, and read as a request of the class, with some bytes, it has the socket and the connection
-- that the constructor was given (a shutdown and a timeout have the socket -1); the type in it is the
-- one by which RequestHandler::process casts to that class, its listener is the one given, and its
-- buffer for data, where the class has one, is empty.
pub class_and_type :
    {bs : List ℕ} {listener : Ptr} {o : RequestObject} {r : Request}
    → Constructed bs listener o r
    → (request_of o.class o bs ≡ some r)
      × (o.base ≡ record {
        socket = request_socket r;
        request_type = get_type r;
        server_listener = listener;
      })
      × (o.connection ≡ connection_of r)
      × (o.contents ≡ initial_data r)
unfolding make_new_connection make_stream_data make_datagram make_connection_lost make_shutdown
    make_timeout connection_part request_of get_type request_socket
class_and_type (by_new_connection socket conn) = (refl, refl, refl, refl)
class_and_type (by_stream_data socket conn) = (refl, refl, refl, refl)
class_and_type (by_datagram socket) = (refl, refl, refl, refl)
class_and_type (by_connection_lost socket conn) = (refl, refl, refl, refl)
class_and_type by_shutdown = (refl, refl, refl, refl)
class_and_type by_timeout = (refl, refl, refl, refl)
