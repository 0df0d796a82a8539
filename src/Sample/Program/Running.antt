-- ===== src/Sample/Program/Running.antt =====
-- The program with one client, which stops it.
use magicserver.Prelude.{
  ℕ, suc, ◌<◌, ◌≡◌, refl, sym, ap, ◌∙◌, false, true, Bool, some, none, List, [], ◌∷◌, ◌++◌, ℤ, pos,
  ltb_ℤ, ◌==ℤ◌, ==ℤ_refl, subst, length, Returns, returns, Returns-bind, append-nil,
}
use magicserver.Errors.{success}
use magicserver.Memory.{null}
use magicserver.Memory.Laws.{IsMemory}
use magicserver.Listener.Removal.{Watches}
use magicserver.Listener.Listen.{Answer, ready, beyond_set}
use magicserver.Request.{requested, new_connection_type, stream_data_type, shutdown_type}
use magicserver.Log.Opening.{from_filename_stdout, destroy_log_stdout}
use magicserver.Server.{set_request_mask, Server, new_server, tcp, default_mask}
use magicserver.Server.Bind.Laws.{Listening, bind-Listening}
use magicserver.Server.Events.{ReadResult, block, read_buffer_len}
use magicserver.Server.Events.Reading.{AllFull, concat, blocks}
use magicserver.Sample.Text.{bytes, is_control, shutting_down}
use magicserver.Sample.Handler.{init}
use magicserver.Sample.Handler.Greeting.{greeting}
use magicserver.Sample.Arguments.{TestArgs, returned}
use magicserver.Sample.Program.{System, handle, start_server, serve, server_main}
use magicserver.Sample.Program.Failing.{new_server-Watches, new_server_lem}
use magicserver.Sample.Program.Visit.{listen-accept}

-- What a new server asks for, and what it has written and made.
fresh :
    (system : System) (args : TestArgs)
    → ((start_server system args).request_mask ≡ default_mask)
      × ((start_server system args).written ≡ [])
      × ((start_server system args).last_connection ≡ null)
unfolding start_server new_server init set_request_mask
fresh system args = (refl, refl, refl)

-- The loop of the program on a server that bind has made.
module _ (system : System) (f : ℕ) (fd : ℤ) (address : ℕ) (opening changed : ℤ → Bool)
    (answers : List Answer) (bs : List (List ℕ)) (last : List ℕ) (rs : List ReadResult) (b : ℕ)
    (rest : List ℕ) where
  serve-visit :
      (s₀ s : Server)
      → Listening system.sockets tcp [] s₀ s
      → s₀.listener.shutdown_status ≡ false
      → s₀.closed ≡ []
      → (s₀.request_mask ≡ default_mask) × (s₀.written ≡ []) × (s₀.last_connection ≡ null)
      → (fd ==ℤ system.sockets.sockfd) ≡ false
      → (system.sockets.sockfd ==ℤ fd) ≡ false
      → ltb_ℤ (pos 0) fd ≡ true
      → beyond_set system.sockets.sockfd ≡ false
      → beyond_set fd ≡ false
      → system.answers ≡ ready opening ∷ ready changed ∷ answers
      → opening system.sockets.sockfd ≡ true
      → ((t : Server)
          → ((system.events system.sockets.sockfd null t).accepted ≡ fd)
            × ((system.events system.sockets.sockfd null t).address ≡ address))
      → changed system.sockets.sockfd ≡ false
      → changed fd ≡ true
      → ((t : Server) → (system.events fd 1 t).reads ≡ blocks bs (block last ∷ rs))
      → AllFull bs
      → length last < read_buffer_len
      → concat bs ++ last ≡ bytes "shutdown" ++ b ∷ rest
      → is_control b ≡ true
      → Returns
          (λ (exit, s').
            (exit ≡ returned (pos 0))
            × Watches s'.listener []
            × (s'.closed ≡ fd ∷ system.sockets.sockfd ∷ [])
            × (s'.written ≡ (fd, greeting system.host address) ∷ (fd, shutting_down) ∷ []))
          (serve "SMPLLIST"
            (handle (suc (suc (suc f))) system.host)
            system
            (suc (suc (suc f)))
            (success, s))
  unfolding serve ltb_ℤ requested
  serve-visit s₀ s l up none_closed (mask, none_written, none_made) other new positive own_low low
        selects opens given same has_changed reads full short arrived control =
      let asks : (type : ℕ)
          → requested default_mask type ≡ true
          → requested s.request_mask type ≡ true =
        λ type e. ap (λ m. requested m type) (l.same_mask ∙ mask) ∙ e in
      let made = l.same_last ∙ none_made in
      rw selects (
        Returns-bind
          (listen-accept f system.host fd address system.events opening changed answers bs last rs b
            rest s l.watched
            (subst (λ n. (system.sockets.sockfd ==ℤ n) ≡ true) (sym l.socket) (==ℤ_refl _))
            (subst (λ n. (fd ==ℤ n) ≡ false) (sym l.socket) other) new positive (own_low, (low, tt))
            l.spoken (l.same_status ∙ up) (asks new_connection_type refl)
            (asks stream_data_type refl) (asks shutdown_type refl) opens given same has_changed
            (λ t. ap (λ q. (system.events fd (suc q) t).reads) made ∙ reads t) full short arrived
            control)
          λ (r, s', fds) (e, none_open, w', closed, written).
            rw (e, none_open)
              (returns (
                refl,
                record { sane = w'.sane; held = w'.held },
                append-nil s'.closed
                    ∙ closed
                    ∙ ap (λ n. s.closed ++ fd ∷ n ∷ []) l.socket
                    ∙ ap (λ m. m ++ fd ∷ system.sockets.sockfd ∷ []) (l.closed ∙ none_closed),
                written
                    ∙ ap (λ m. m ++ (fd, greeting system.host address) ∷ (fd, shutting_down) ∷ [])
                        (l.same_written ∙ none_written),
              )))

-- The program over TCP with a log on standard output, in storage where nothing stands at addresses
-- never handed out, where socket, setsockopt, bind and listen succeed and the socket is positive and
-- small enough for a set: select says in the first round that the server's socket has changed, and
-- accept gives another socket, positive and small enough for a set; in the second round it says that this one has changed and the server's has
-- not, and the calls of read on it, of which only the last does not fill the buffer, give "shutdown"
-- and then a byte that ends it. With fuel for three rounds or more the program ends and returns 0. Its
-- server watches no descriptor any more, has written to the client the greeting and then the message
-- of the shutdown, and nothing else, and has closed the client's socket and then the server's, each once,
-- and nothing else.
pub server_main-visit :
    (system : System) (f : ℕ) (fd : ℤ) (address : ℕ) (opening changed : ℤ → Bool)
    (answers : List Answer) (bs : List (List ℕ)) (last : List ℕ) (rs : List ReadResult) (b : ℕ)
    (rest : List ℕ) (args : TestArgs)
    → IsMemory system.memory
    → args.logfile ≡ none
    → args.udp ≡ false
    → ltb_ℤ (pos 0) system.sockets.sockfd ≡ true
    → ltb_ℤ system.sockets.setsockopt (pos 0) ≡ false
    → ltb_ℤ system.sockets.bound (pos 0) ≡ false
    → (system.sockets.listening ==ℤ pos 0) ≡ true
    → (fd ==ℤ system.sockets.sockfd) ≡ false
    → (system.sockets.sockfd ==ℤ fd) ≡ false
    → ltb_ℤ (pos 0) fd ≡ true
    → beyond_set system.sockets.sockfd ≡ false
    → beyond_set fd ≡ false
    → system.answers ≡ ready opening ∷ ready changed ∷ answers
    → opening system.sockets.sockfd ≡ true
    → ((t : Server)
        → ((system.events system.sockets.sockfd null t).accepted ≡ fd)
          × ((system.events system.sockets.sockfd null t).address ≡ address))
    → changed system.sockets.sockfd ≡ false
    → changed fd ≡ true
    → ((t : Server) → (system.events fd 1 t).reads ≡ blocks bs (block last ∷ rs))
    → AllFull bs
    → length last < read_buffer_len
    → concat bs ++ last ≡ bytes "shutdown" ++ b ∷ rest
    → is_control b ≡ true
    → Returns
        (λ (exit, server).
          (s' : Server) × (server ≡ some s')
          × (exit ≡ returned (pos 0))
          × Watches s'.listener []
          × (s'.closed ≡ fd ∷ system.sockets.sockfd ∷ [])
          × (s'.written ≡ (fd, greeting system.host address) ∷ (fd, shutting_down) ∷ []))
        (server_main system (suc (suc (suc f))) args)
unfolding server_main serve ltb_ℤ
server_main-visit system f fd address opening changed answers bs last rs b rest args sane no_file
      stream made reusable bound listening other new positive own_low low selects opens given same
      has_changed reads full short arrived control =
    let (up, none_closed, kept) = new_server_lem system args in
    let s₀ = start_server system args in
    rw (no_file, server_main)
      (rw (from_filename_stdout system.opened) (
        rw (stream, server_main)
          (Returns-bind
            (bind-Listening {s = s₀} system.sockets (new_server-Watches system args sane) made
              reusable bound listening)
            λ (r, s) (e, l). rw e (
              Returns-bind
                (serve-visit system f fd address opening changed answers bs last rs b rest s₀ s l up
                  none_closed (fresh system args) other new positive own_low low selects opens given
                  same has_changed reads full short arrived control)
                λ (exit, s') (e', w', closed, written).
                  rw destroy_log_stdout (returns (s', refl, e', w', closed, written))))))
