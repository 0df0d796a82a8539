-- ===== src/Sample/Program/Relaying.antt =====
-- A message of a client, from the calls of read to what the other clients get.
use magicserver.Prelude.{
  ℕ, ◌<◌, ◌≡◌, ap, ◌∙◌, true, false, none, some, List, [], ◌∷◌, ◌++◌, arith, ℤ, ◌==ℤ◌, length,
  length-append, Option, ok,
}
use magicserver.Errors.{success}
use magicserver.Memory.{Ptr}
use magicserver.Listener.{Descriptor}
use magicserver.Listener.Removal.{Watches}
use magicserver.Request.{stream_data, requested, stream_data_type}
use magicserver.Request.Dispatch.{process-method}
use magicserver.Server.{Connection, Server, tcp, delete_request}
use magicserver.Server.Events.{ReadResult, block, read_buffer_len, descriptor_event}
use magicserver.Server.Events.Arriving.{descriptor_event-stream_data}
use magicserver.Server.Events.Reading.{AllFull, concat, blocks}
use magicserver.Sample.Text.{is_control, answer, relayed}
use magicserver.Sample.Text.Cutting.{AllPlain}
use magicserver.Sample.Handler.{my_handler, log_sample}
use magicserver.Sample.Handler.Relay.{Serves, NoCommand, others, message_to, process_data-others}
use magicserver.Sample.Program.{handle, log_unhandled}

-- On a TCP server of the sample program that asks for stream data and watches its own socket first,
-- and then those of the connections `cs`: a client's message, a text that is no command and then a
-- byte that ends it (a control character, or one above 0x7f), arrives in calls of read of which
-- only the last does not fill the buffer. Whatever follows that byte, the client gets the answer,
-- then each connection with another socket gets the relayed text, once and in the order of the
-- descriptors, and the message is logged. Nothing else changes. With more fuel than descriptors the
-- event ends.
pub descriptor_event-others :
    {d : Descriptor} {ds : List Descriptor} (cs : List Connection) (s : Server) (f : ℕ)
    (host : Option (List ℕ)) (accepted : ℤ) (address : ℕ) (fd : ℤ) (p : Ptr) (bs : List (List ℕ))
    (last : List ℕ) (rs : List ReadResult) (text : List ℕ) (b : ℕ) (rest : List ℕ)
    → Watches s.listener (d ∷ ds)
    → (d.fd ==ℤ s.socket) ≡ true
    → Serves s.socket s.connections ds cs
    → length (d ∷ ds) < f
    → s.protocol ≡ tcp
    → (fd ==ℤ s.socket) ≡ false
    → requested s.request_mask stream_data_type ≡ true
    → AllFull bs
    → length last < read_buffer_len
    → concat bs ++ last ≡ text ++ b ∷ rest
    → AllPlain text
    → is_control b ≡ true
    → NoCommand (some p) text
    → descriptor_event (handle f host) none accepted address (blocks bs (block last ∷ rs)) fd p s
      ≡ ok (
        success,
        log_sample "Received message '%s'." (record s {
          written =
              (s.written ++ (fd, answer text) ∷ []) ++ message_to (relayed text) (others fd cs);
        }),
      )
unfolding delete_request
descriptor_event-others cs s f host accepted address fd p bs last rs text b rest watched own serves
      fuel speaks client mask full short arrived plain control no_command =
    descriptor_event-stream_data (handle f host) none accepted address fd p bs last rs s success
      full short (omega (arith, ap length arrived, length-append text (b ∷ rest))) speaks client
      mask
      (process-method (my_handler f host) log_unhandled delete_request s
          (stream_data fd p (concat bs ++ last)) (λ t. cc)
        ∙ rw arrived (
            rw (
              process_data-others cs s watched own serves f fd (some p) text b rest fuel plain
                control no_command)))
