-- ===== src/Sample/Program/Session.antt =====
-- A client that stops the server, from the call of select to the end of listen.
use magicserver.Prelude.{
  ℕ, suc, ◌<◌, ◌≡◌, refl, sym, ap, ◌∙◌, true, false, Bool, Option, none, List, [], ◌∷◌, ◌++◌, arith,
  ℤ, ◌==ℤ◌, length, length-append, ok, Returns, Returns-mono,
}
use magicserver.Errors.{success}
use magicserver.Memory.{Ptr}
use magicserver.Listener.{Descriptor, start_shutdown}
use magicserver.Listener.Removal.{Watches}
use magicserver.Listener.Listen.{Answer, ready, listen_loop, listen, after_event}
use magicserver.Listener.Listen.Watching.{InSet}
use magicserver.Listener.Listen.Round.{listen_loop-last, listen-ends, started, locked_state}
use magicserver.Request.{stream_data, requested, stream_data_type, shutdown_type, shutdown_request}
use magicserver.Request.Dispatch.{process-method}
use magicserver.Server.{Connection, Server, tcp, delete_request}
use magicserver.Server.Connections.{Connected}
use magicserver.Server.Events.{ReadResult, block, read_buffer_len, descriptor_event}
use magicserver.Server.Events.Arriving.{descriptor_event-stream_data}
use magicserver.Server.Events.Reading.{AllFull, concat, blocks}
use magicserver.Server.Shutdown.{announce, shutdown}
use magicserver.Server.Shutdown.Single.{shutdown_single}
use magicserver.Sample.Text.{bytes, is_control, shutting_down}
use magicserver.Sample.Handler.{my_handler, log_sample}
use magicserver.Sample.Handler.Relay.{Serves, message_to, shutdown_request_lem}
use magicserver.Sample.Handler.Commands.{process_data-start_shutdown}
use magicserver.Sample.Program.{EventCalls, server_listener, handle, log_unhandled}

-- The client's message.
descriptor_event-shutdown :
    (f : ℕ) (host : Option (List ℕ)) (accepted : ℤ) (address : ℕ) (fd : ℤ) (p : Ptr)
    (bs : List (List ℕ)) (last : List ℕ) (rs : List ReadResult) (b : ℕ) (rest : List ℕ) (s : Server)
    → s.protocol ≡ tcp
    → (fd ==ℤ s.socket) ≡ false
    → requested s.request_mask stream_data_type ≡ true
    → AllFull bs
    → length last < read_buffer_len
    → concat bs ++ last ≡ bytes "shutdown" ++ b ∷ rest
    → is_control b ≡ true
    → descriptor_event (handle f host) none accepted address (blocks bs (block last ∷ rs)) fd p s
      ≡ ok (
        success,
        log_sample "Received message '%s'." (record s { listener = start_shutdown s.listener }),
      )
unfolding delete_request
descriptor_event-shutdown f host accepted address fd p bs last rs b rest s speaks client mask full
      short arrived control =
    descriptor_event-stream_data (handle f host) none accepted address fd p bs last rs s success
      full short (omega (arith, ap length arrived, length-append (bytes "shutdown") (b ∷ rest)))
      speaks client mask
      (process-method (my_handler f host) log_unhandled delete_request s
          (stream_data fd p (concat bs ++ last)) (λ t. cc)
        ∙ rw arrived (rw (process_data-start_shutdown f fd p b rest s control)))

-- The handler is told of the shutdown.
announce-told :
    {d x : Descriptor} {c : Connection} (f : ℕ) (host : Option (List ℕ)) (s : Server)
    → requested s.request_mask shutdown_type ≡ true
    → Watches s.listener (d ∷ x ∷ [])
    → (d.fd ==ℤ s.socket) ≡ true
    → Serves s.socket s.connections (x ∷ []) (c ∷ [])
    → 2 < f
    → announce (handle f host) s
      ≡ ok (
        success,
        log_sample "Server is shutting down."
            (record s { written = s.written ++ message_to shutting_down (c ∷ []) }),
      )
unfolding announce delete_request
announce-told {c} f host s mask w own serves fuel =
    rw
      (
        mask,
        process-method (my_handler f host) log_unhandled delete_request s shutdown_request
            (λ t. cc),
      )
      (rw (shutdown_request_lem (c ∷ []) s w own serves f fuel))

-- Another state of the server in which the connection is as it was.
abbrev pub connected_same :
    {s t : Server} {p : Ptr} {c : Connection} {d : Descriptor} (k : Connected s p c (d ∷ []) [])
    → t.connections ≡ s.connections
    → Watches t.listener (d ∷ k.descriptor ∷ [])
    → Connected t p c (d ∷ []) []
connected_same {p} k same w = record {
  ne_null = k.ne_null;
  object = ap (λ m. m p) same ∙ k.object;
  has_socket = k.has_socket;
  attached = k.attached;
  descriptor = k.descriptor;
  numbered = k.numbered;
  first = k.first;
  alone = k.alone;
  watched = w;
}

-- What the server has done for one client in its shutdown.
abbrev pub Stopped : Server → Connection → Server → Type 0
Stopped s c s' =
    (s'.closed ≡ s.closed ++ c.conn_socket ∷ s.socket ∷ [])
    × (s'.written ≡ s.written ++ (c.conn_socket, shutting_down) ∷ [])

-- The end of listen, after the loop.
finish :
    {s : Server} {p : Ptr} {c : Connection} {d : Descriptor} (f : ℕ) (host : Option (List ℕ))
    (k : Connected s p c (d ∷ []) [])
    → k.descriptor.object ≡ p
    → (d.fd ==ℤ s.socket) ≡ true
    → (k.descriptor.fd ==ℤ s.socket) ≡ false
    → requested s.request_mask shutdown_type ≡ true
    → Returns
        (λ (_, s'). Watches s'.listener [] × Stopped s c s')
        (shutdown (handle (suc (suc (suc f))) host) (suc (suc (suc f))) s)
finish {s} {p} {c} f host k object own other mask =
    let told =
      announce-told (suc (suc (suc f))) host s mask k.watched own
        (other, (λ e. k.ne_null (sym object ∙ e)), ap s.connections object ∙ k.object, tt)
        (omega arith) in
    Returns-mono
      (shutdown_single (handle (suc (suc (suc f))) host) s success (suc f) told
        (connected_same k refl (record { sane = k.watched.sane; held = k.watched.held })) object own
        other)
      λ (r, s') (_, w, closed, _, written). (w, (closed, written))

-- The round of listen in which the client's message arrives, and what the shutdown behind it does.
module _ {s : Server} {p : Ptr} {c : Connection} {d : Descriptor} (f : ℕ) (host : Option (List ℕ))
    (calls : ℤ → Ptr → Server → EventCalls) (changed : ℤ → Bool) (answers : List Answer)
    (bs : List (List ℕ)) (last : List ℕ) (rs : List ReadResult) (b : ℕ) (rest : List ℕ) where
  pub stop_round :
      (errors : ℕ) (k : Connected s p c (d ∷ []) [])
      → k.descriptor.object ≡ p
      → (d.fd ==ℤ s.socket) ≡ true
      → (k.descriptor.fd ==ℤ s.socket) ≡ false
      → InSet (d ∷ k.descriptor ∷ [])
      → s.protocol ≡ tcp
      → requested s.request_mask stream_data_type ≡ true
      → requested s.request_mask shutdown_type ≡ true
      → changed d.fd ≡ false
      → changed k.descriptor.fd ≡ true
      → ((t : Server)
          → (calls k.descriptor.fd k.descriptor.object t).reads ≡ blocks bs (block last ∷ rs))
      → AllFull bs
      → length last < read_buffer_len
      → concat bs ++ last ≡ bytes "shutdown" ++ b ∷ rest
      → is_control b ≡ true
      → (t : Server) × (listen_loop
            (server_listener (handle (suc (suc (suc f))) host) calls (suc (suc (suc f))))
            (suc (suc (suc f)))
            (ready changed ∷ answers)
            errors
            s
          ≡ ok t)
        × Returns
            (λ (_, s'). Watches s'.listener [] × Stopped s c s')
            (shutdown (handle (suc (suc (suc f))) host) (suc (suc (suc f))) t)
  unfolding after_event start_shutdown ◌==ℤ◌
  stop_round errors k object own other inside speaks mask shut_mask same has_changed reads full
        short arrived control =
      let n = suc (suc (suc f)) in
      let cls = server_listener (handle n host) calls n in
      let x = k.descriptor in
      let t = locked_state cls s in
      let e = calls x.fd x.object t in
      let event =
        ap
          (λ given.
            descriptor_event (handle n host) none e.accepted e.address given x.fd x.object t)
          (reads t)
        ∙ descriptor_event-shutdown n host e.accepted e.address x.fd x.object bs last rs b rest t
            speaks other mask full short arrived control in
      let still : Watches t.listener (d ∷ x ∷ []) = record {
        sane = k.watched.sane;
        held = k.watched.held;
      } in
      (
        _,
        listen_loop-last cls n errors changed answers (d ∷ []) s (λ l u. refl) k.watched inside
            (same, tt) has_changed event (record { sane = still.sane; held = still.held }) refl
            (omega arith),
        finish f host (connected_same k refl (record { sane = still.sane; held = still.held }))
            object own other shut_mask,
      )

-- On a listening TCP server of the sample program, with one client, whose descriptor stands behind that
-- of the server's own socket, both small enough for a set, and which asks for stream data and to be
-- told of the shutdown: select says that the client's descriptor has changed and the server's has not, and the calls of
-- read on it, of which only the last does not fill the buffer, give "shutdown" and then a byte that
-- ends it (a control character, or one above 0x7f). Whatever follows that byte, and whatever select
-- would answer later, listen ends and returns success, with fuel for three rounds or more. It has
-- written the message of the shutdown to the client and nothing else, closed the client's socket and
-- then the server's, each once, and nothing else, and watches no descriptor any more.
pub listen-shutdown :
    {s : Server} {p : Ptr} {c : Connection} {d : Descriptor} (f : ℕ) (host : Option (List ℕ))
    (calls : ℤ → Ptr → Server → EventCalls) (changed : ℤ → Bool) (answers : List Answer)
    (bs : List (List ℕ)) (last : List ℕ) (rs : List ReadResult) (b : ℕ) (rest : List ℕ)
    (k : Connected s p c (d ∷ []) [])
    → k.descriptor.object ≡ p
    → (d.fd ==ℤ s.socket) ≡ true
    → (k.descriptor.fd ==ℤ s.socket) ≡ false
    → InSet (d ∷ k.descriptor ∷ [])
    → s.protocol ≡ tcp
    → requested s.request_mask stream_data_type ≡ true
    → requested s.request_mask shutdown_type ≡ true
    → changed d.fd ≡ false
    → changed k.descriptor.fd ≡ true
    → ((t : Server)
        → (calls k.descriptor.fd k.descriptor.object t).reads ≡ blocks bs (block last ∷ rs))
    → AllFull bs
    → length last < read_buffer_len
    → concat bs ++ last ≡ bytes "shutdown" ++ b ∷ rest
    → is_control b ≡ true
    → Returns
        (λ (r, s', fds). (r ≡ success) × (fds ≡ []) × Watches s'.listener [] × Stopped s c s')
        (listen
          (server_listener (handle (suc (suc (suc f))) host) calls (suc (suc (suc f))))
          (suc (suc (suc f)))
          (ready changed ∷ answers)
          s)
listen-shutdown {s} {p} {c} {d} f host calls changed answers bs last rs b rest k object own other
      inside speaks mask shut_mask same has_changed reads full short arrived control =
    let n = suc (suc (suc f)) in
    let cls = server_listener (handle n host) calls n in
    let (t, loop, ends) =
      stop_round f host calls changed answers bs last rs b rest 0
        (connected_same {t = started cls s} k refl
          (record { sane = k.watched.sane; held = k.watched.held }))
        object own other inside speaks mask shut_mask same has_changed reads full short arrived
        control in
    listen-ends cls (Stopped s c) n (ready changed ∷ answers) s loop ends
