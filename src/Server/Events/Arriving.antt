-- ===== src/Server/Events/Arriving.antt =====
-- Data that arrive on a connection: from the calls of read to the handler's answer.
use magicserver.Prelude.{
  ℕ, ◌<◌, ◌≡◌, ap, true, false, Option, List, ◌∷◌, ◌++◌, arith, ℤ, pos, ltb_ℤ, lt→ltb, ◌==ℤ◌,
  length, ok,
}
use magicserver.Errors.{MsrvResult, success}
use magicserver.Memory.{Ptr}
use magicserver.Request.{datagram, datagram_type, stream_data, requested, stream_data_type}
use magicserver.Server.{Server, tcp, udp}
use magicserver.Server.Events.{
  Process, ReadResult, block, read_buffer_len, send, data_event, after_read, descriptor_event,
}
use magicserver.Server.Events.Reading.{AllFull, concat, blocks, read_loop-concat}

not_negative : (n : ℕ) → ltb_ℤ (pos n) (pos 0) ≡ false
unfolding ltb_ℤ
not_negative n = ground arith

data_event_tcp :
    (process : Process) (factory : Option (ℤ → ℕ → Server → Ptr × Server)) (fd : ℤ) (p : Ptr)
    (bytes : List ℕ) (s : Server)
    → s.protocol ≡ tcp
    → data_event process factory fd p bytes s
      ≡ send process factory stream_data_type (stream_data fd p bytes) s
unfolding data_event
data_event_tcp process factory fd p bytes s speaks =
    ap
      (λ q. elim q [
        | tcp ↦ send process factory stream_data_type (stream_data fd p bytes) s
        | udp ↦ send process factory datagram_type (datagram fd bytes) s
      ])
      speaks

-- On a TCP server that asks for stream data, on a socket that is not its own: the handler gets one
-- request with all bytes that the calls of read gave, and the server goes on from the state that the
-- handler leaves, whatever its result.
pub descriptor_event-stream_data :
    {s₁ : Server} (process : Process) (factory : Option (ℤ → ℕ → Server → Ptr × Server))
    (accepted : ℤ) (address : ℕ) (fd : ℤ) (p : Ptr) (bs : List (List ℕ)) (last : List ℕ)
    (rs : List ReadResult) (s : Server) (result : MsrvResult)
    → AllFull bs
    → length last < read_buffer_len
    → 0 < length (concat bs ++ last)
    → s.protocol ≡ tcp
    → (fd ==ℤ s.socket) ≡ false
    → requested s.request_mask stream_data_type ≡ true
    → process (stream_data fd p (concat bs ++ last)) s ≡ ok (result, s₁)
    → descriptor_event process factory accepted address (blocks bs (block last ∷ rs)) fd p s
      ≡ ok (success, s₁)
unfolding descriptor_event after_read send
descriptor_event-stream_data process factory accepted address fd p bs last rs s result full short
      some_data speaks other mask run =
    rw (other, (read_loop-concat bs last rs full short).0)
      (rw (not_negative (length last), lt→ltb 0 (length (concat bs ++ last)) some_data)
        (rw (data_event_tcp process factory fd p (concat bs ++ last) s speaks, send)
          (rw mask (rw run))))
