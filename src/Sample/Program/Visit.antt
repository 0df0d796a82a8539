-- ===== src/Sample/Program/Visit.antt =====
-- A client's visit to the sample program: listen from the new connection to the end.
use magicserver.Prelude.{
  ℕ, suc, ◌<◌, ◌≡◌, refl, ap, ◌∙◌, false, true, Bool, Option, none, List, [], ◌∷◌, ◌++◌, arith, ℤ,
  pos, ltb_ℤ, ◌==ℤ◌, ==ℤ_refl, length, append_assoc, ok, Returns, Returns-mono,
}
use magicserver.Errors.{success}
use magicserver.Memory.{Ptr}
use magicserver.Listener.{Descriptor, is_shutdown}
use magicserver.Listener.Removal.{Lacks, Watches}
use magicserver.Listener.Listen.{Answer, ready, listen, after_event}
use magicserver.Listener.Listen.Round.{
  started, locked_state, unlocked_state, listen_loop-added, listen-ends,
}
use magicserver.Listener.Listen.Watching.{InSet}
use magicserver.Request.{
  new_connection, requested, new_connection_type, stream_data_type, shutdown_type,
}
use magicserver.Request.Dispatch.{process-method}
use magicserver.Server.{Server, tcp, delete_request}
use magicserver.Server.Connections.{Connected}
use magicserver.Server.Events.{ReadResult, block, read_buffer_len, accept, descriptor_event}
use magicserver.Server.Events.Accepting.{
  Accepted, connected, accept_lem, descriptor_event-accept, send_lem, positive,
}
use magicserver.Server.Events.Reading.{AllFull, concat, blocks}
use magicserver.Sample.Text.{bytes, is_control, shutting_down}
use magicserver.Sample.Handler.{my_handler}
use magicserver.Sample.Handler.Greeting.{greeting, Greeted, new_connection_request_lem}
use magicserver.Sample.Program.{EventCalls, server_listener, handle, log_unhandled}
use magicserver.Sample.Program.Session.{Stopped, stop_round, connected_same}

-- accept has the handler greet the client.
accept-greeting :
    {s : Server} {ds : List Descriptor} (f : ℕ) (host : Option (List ℕ)) (fd : ℤ) (address : ℕ)
    → Watches s.listener ds
    → ltb_ℤ fd (pos 0) ≡ false
    → requested s.request_mask new_connection_type ≡ true
    → (s₁ : Server) × Accepted s s₁ fd address ds
      × ((s₂ : Server) × (accept (handle f host) none fd address s ≡ ok (success, s₂))
          × Greeted s₁ s₂
              (ds ++ record { fd = fd; object = suc s.last_connection } ∷ [])
              fd
              (greeting host address))
unfolding delete_request
accept-greeting {s} f host fd address w valid mask =
    let (s₁, a, e) = accept_lem {s = s} (handle f host) fd address w valid in
    let (s₂, run, g) =
      new_connection_request_lem host fd (λ (e : suc s.last_connection ≡ 0). omega arith) a.object
        a.watched in
    (
      s₁,
      a,
      (
        s₂,
        e
            ∙ rw
                (send_lem {s₁ = s₂} (handle f host) new_connection_type
                  (new_connection fd (suc s.last_connection)) s₁ success
                  (ap (λ m. requested m new_connection_type) a.same_mask ∙ mask)
                  (process-method (my_handler f host) log_unhandled delete_request s₁
                      (new_connection fd (suc s.last_connection)) (λ t. cc)
                    ∙ rw run refl))
                refl,
        g,
      ),
    )

-- The connection after the greeting.
abbrev greeted-Connected :
    {s s₁ s₂ : Server} {fd : ℤ} {address : ℕ} {ds : List Descriptor} {msg : List ℕ}
    → Accepted s s₁ fd address ds
    → Greeted s₁ s₂ (ds ++ record { fd = fd; object = suc s.last_connection } ∷ []) fd msg
    → (fd ==ℤ pos 0) ≡ false
    → Lacks fd ds
    → Connected s₂ (suc s.last_connection) (connected fd address) ds []
greeted-Connected {s} {s₁} {s₂} {fd} a g has_socket lacks = record {
  ne_null = omega arith;
  object = ap (λ m. m (suc s.last_connection)) g.same_connections ∙ a.object;
  has_socket = has_socket;
  attached = refl;
  descriptor = record { fd = fd; object = suc s.last_connection };
  numbered = ==ℤ_refl fd;
  first = lacks;
  alone = tt;
  watched = g.watched;
}

-- On a TCP server of the sample program that watches only its own socket, asks for new connections,
-- stream data and the shutdown, and has not been told to shut down: select says in the first round of
-- listen that the socket has changed, and accept gives a positive socket that is not the server's, both
-- small enough for a set. In the second round, it says that the client's descriptor has changed and
-- the server's has not, and the calls of read on it, of which only the last does not fill the
-- buffer, give "shutdown" and then a byte that ends it. Then listen ends and returns success, with
-- fuel for three rounds or more; the server has written to the client the greeting, with the name that its
-- address has, if any, and then the message of the shutdown, and nothing else; it has closed the
-- client's socket and then its own, each once, and nothing else, and watches no descriptor.
pub listen-accept :
    {d : Descriptor} (f : ℕ) (host : Option (List ℕ)) (fd : ℤ) (address : ℕ)
    (calls : ℤ → Ptr → Server → EventCalls) (opening changed : ℤ → Bool) (answers : List Answer)
    (bs : List (List ℕ)) (last : List ℕ) (rs : List ReadResult) (b : ℕ) (rest : List ℕ) (s : Server)
    → Watches s.listener (d ∷ [])
    → (d.fd ==ℤ s.socket) ≡ true
    → (fd ==ℤ s.socket) ≡ false
    → (d.fd ==ℤ fd) ≡ false
    → ltb_ℤ (pos 0) fd ≡ true
    → InSet (d ∷ record { fd = fd; object = suc s.last_connection } ∷ [])
    → s.protocol ≡ tcp
    → is_shutdown s.listener ≡ false
    → requested s.request_mask new_connection_type ≡ true
    → requested s.request_mask stream_data_type ≡ true
    → requested s.request_mask shutdown_type ≡ true
    → opening d.fd ≡ true
    → ((t : Server)
        → ((calls d.fd d.object t).accepted ≡ fd) × ((calls d.fd d.object t).address ≡ address))
    → changed d.fd ≡ false
    → changed fd ≡ true
    → ((t : Server) → (calls fd (suc s.last_connection) t).reads ≡ blocks bs (block last ∷ rs))
    → AllFull bs
    → length last < read_buffer_len
    → concat bs ++ last ≡ bytes "shutdown" ++ b ∷ rest
    → is_control b ≡ true
    → Returns
        (λ (r, s', fds).
          (r ≡ success)
          × (fds ≡ [])
          × Watches s'.listener []
          × (s'.closed ≡ s.closed ++ fd ∷ s.socket ∷ [])
          × (s'.written ≡ s.written ++ (fd, greeting host address) ∷ (fd, shutting_down) ∷ []))
        (listen
          (server_listener (handle (suc (suc (suc f))) host) calls (suc (suc (suc f))))
          (suc (suc (suc f)))
          (ready opening ∷ ready changed ∷ answers)
          s)
unfolding after_event ◌==ℤ◌
listen-accept {d} f host fd address calls opening changed answers bs last rs b rest s w own other
      new up inside speaks running new_mask mask shut_mask opens given same has_changed reads full
      short arrived control =
    let n = suc (suc (suc f)) in
    let cls = server_listener (handle n host) calls n in
    let t₀ = locked_state cls (started cls s) in
    let (s₁, a, (s₂, e, g)) =
      accept-greeting {s = t₀} n host fd address (record { sane = w.sane; held = w.held })
        (positive fd up).0 new_mask in
    let socket = g.same_socket ∙ a.same_socket in
    let asked = g.same_mask ∙ a.same_mask in
    let call = calls d.fd d.object t₀ in
    let event =
      ap
        (λ accepted.
          descriptor_event (handle n host) none accepted call.address call.reads d.fd d.object t₀)
        (given t₀).0
      ∙ ap (λ from. descriptor_event (handle n host) none fd from call.reads d.fd d.object t₀)
          (given t₀).1
      ∙ descriptor_event-accept (handle n host) fd address call.reads d.fd d.object t₀ own speaks
          e in
    let (t, loop, ends) =
      stop_round f host calls changed answers bs last rs b rest 0
        (connected_same {t = unlocked_state cls s₂}
          (greeted-Connected a g (positive fd up).1 (new, tt)) refl
          (record { sane = g.watched.sane; held = g.watched.held }))
        refl (ap (λ x. d.fd ==ℤ x) socket ∙ own) (ap (λ x. fd ==ℤ x) socket ∙ other) inside
        (g.same_protocol ∙ a.same_protocol ∙ speaks)
        (ap (λ m. requested m stream_data_type) asked ∙ mask)
        (ap (λ m. requested m shutdown_type) asked ∙ shut_mask) same has_changed reads full short
        arrived control in
    let first =
      listen_loop-added cls f 0 opening (ready changed ∷ answers) (started cls s) (λ l u. refl)
        (record { sane = w.sane; held = w.held }) inside new opens event g.watched
        (g.same_status ∙ a.same_status ∙ running) in
    Returns-mono
      (listen-ends cls (Stopped (unlocked_state cls s₂) (connected fd address)) n
        (ready opening ∷ ready changed ∷ answers) s (first ∙ loop) ends)
      λ (r, s', fds) (done, none_left, w', (closed, written)). (
        done,
        none_left,
        w',
        closed
            ∙ ap (λ l. l ++ fd ∷ s₂.socket ∷ []) (g.same_closed ∙ a.same_closed)
            ∙ ap (λ x. s.closed ++ fd ∷ x ∷ []) socket,
        written
            ∙ rw (g.written, a.same_written)
                (append_assoc s.written ((fd, greeting host address) ∷ [])
                  ((fd, shutting_down) ∷ [])),
      )
