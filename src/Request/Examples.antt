-- ===== src/Request/Examples.antt =====
-- The theorems on the switchboard with handlers that count: the state is the number of calls.
use magicserver.Prelude.{some, ℕ, ◌+◌, ◌≡◌, [], ◌∷◌, pos, negsuc, Outcome, ok, ◌>>=◌}
use magicserver.Request.{
  Request, stream_data, stream_data_type, get_type, request_socket, Handlers, process,
  idle_handlers,
}
use magicserver.Request.Data.{new_data_request}
use magicserver.Request.Objects.{request_of, make_stream_data, by_stream_data, class_and_type}
use magicserver.Request.Dispatch.{method, process-method}

abbrev handlers : Handlers ℕ
handlers = record idle_handlers { on_stream_data = λ socket p bytes n. ok (negsuc 4, n + 1) }

abbrev warn : ℕ → ℕ → ℕ
warn type n = n + 100

abbrev delete : Request → ℕ → Outcome ℕ
delete r n = ok (n + 10)

process-method_example : process handlers warn delete (stream_data (pos 5) 1 (65 ∷ [])) 0 ≡ (
    method handlers (stream_data (pos 5) 1 (65 ∷ [])) 0 >>= λ (result, s₁).
    delete (stream_data (pos 5) 1 (65 ∷ [])) s₁ >>= λ s₂. ok (result, s₂))
process-method_example =
    process-method handlers warn delete 0 (stream_data (pos 5) 1 (65 ∷ [])) (λ type e. cc)

class_and_type_example :
    (request_of (make_stream_data (pos 5) 1 2).class (make_stream_data (pos 5) 1 2) (65 ∷ [])
      ≡ some (stream_data (pos 5) 1 (65 ∷ [])))
    × ((make_stream_data (pos 5) 1 2).base
        ≡ record { socket = pos 5; request_type = stream_data_type; server_listener = 2 })
    × ((make_stream_data (pos 5) 1 2).connection ≡ some 1)
    × ((make_stream_data (pos 5) 1 2).contents ≡ some new_data_request)
unfolding get_type request_socket
class_and_type_example = class_and_type (by_stream_data (pos 5) 1)
