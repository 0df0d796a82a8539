-- ===== src/Request/Dispatch.antt =====
-- RequestHandler::process, for the request classes of the library and for others.
use magicserver.Prelude.{ℕ, ◌<◌, ◌≡◌, ◌≢◌, refl, arith, Outcome, ok, fault, null_pointer, ◌>>=◌}
use magicserver.Errors.{MsrvResult, success}
use magicserver.Request.{
  Request, new_connection, stream_data, datagram, connection_lost, shutdown_request,
  timeout_request, other, Handlers, process, shutdown_type,
}

module _ {S : Type 0} (h : Handlers S) where
  -- The method for the class of a request of the library.
  abbrev pub method : Request → S → Outcome (MsrvResult × S)
  method (new_connection s c) = h.on_new_connection s c
  method (stream_data s c b) = h.on_stream_data s c b
  method (datagram s b) = h.on_datagram s b
  method (connection_lost s c) = h.on_connection_lost s c
  method shutdown_request = h.on_shutdown
  method timeout_request = h.on_timeout
  method (other type) = λ s. ok (success, s)

  module _ (warn : ℕ → S → S) (delete : Request → S → Outcome S) (s : S) where
    -- RequestHandler::process gives a request of the library to the method for its class, destroys the
    -- request once, after the method has returned, and returns the method's result.
    pub process-method :
        (r : Request)
        → ((type : ℕ) → r ≢ other type)
        → process h warn delete r s
          ≡ (method r s >>= λ (result, s₁). delete r s₁ >>= λ s₂. ok (result, s₂))
    unfolding process
    process-method (other type) n = absurd (n type refl)
    process-method (new_connection a c) n = refl
    process-method (stream_data a c b) n = refl
    process-method (datagram a b) n = refl
    process-method (connection_lost a c) n = refl
    process-method shutdown_request n = refl
    process-method timeout_request n = refl

    -- Of a request of another class, with a type above the library's, process only warns, and destroys
    -- it; but where such a request has the type of a shutdown, process dereferences NULL.
    pub process-other :
        (type : ℕ)
        → 0x20 < type
        → (process h warn delete (other type) s
            ≡ (delete (other type) (warn type s) >>= λ s₂. ok (success, s₂)))
          × (process h warn delete (other shutdown_type) s ≡ fault null_pointer)
    unfolding process
    process-other type n = (ground arith, refl)
