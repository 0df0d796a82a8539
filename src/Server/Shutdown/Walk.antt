-- ===== src/Server/Shutdown/Walk.antt =====
-- The connection iterator: where it starts, what it gives, and how it goes on.
use magicserver.Prelude.{
  ℕ, suc, sym, subst, append_assoc, length-append, ◌<◌, ◌≡◌, ap, ◌∙◌, true, false, List, [], ◌∷◌,
  ◌++◌, arith, ℤ, pos, ◌==ℤ◌, +ℤ-pos, lt→ltb, le→ltb_false, length, ok, fault, dangling, ◌>>=◌,
}
use magicserver.Memory.{Memory}
use magicserver.Container.Array.{Array, Iterator, iterate, get, next, exhausted}
use magicserver.Container.Array.Contents.{IsArray}
use magicserver.Container.Array.Iteration.{at_index_lem, exhausted-ltb}
use magicserver.Listener.{Descriptor}
use magicserver.Listener.Removal.{Watches}
use magicserver.Listener.Removal.Stale.{IsStale}
use magicserver.Server.{Server}
use magicserver.Server.Shutdown.{skip_socket, conn_iter, conn_get, conn_next}

abbrev pub iterator : ℕ → Array → Iterator
iterator i a = record { position = pos i; array = a }

pub next_lem : (i : ℕ) (a : Array) → next (iterator i a) ≡ iterator (suc i) a
unfolding next
next_lem i a = ap (λ p. record { position = p; array = a }) (+ℤ-pos i 1 ∙ ap pos (omega arith))

pub more_left :
    {m : Memory Descriptor} {a : Array} {ds : List Descriptor} (i : ℕ)
    → IsArray m a ds
    → i < length ds
    → exhausted (iterator i a) ≡ false
more_left {a} {ds} i is h = exhausted-ltb a i (length ds) is.count ∙ rw (lt→ltb i (length ds) h)

pub none_left :
    {m : Memory Descriptor} {a : Array} {ds : List Descriptor} (i : ℕ)
    → IsArray m a ds
    → i ≡ length ds
    → exhausted (iterator i a) ≡ true
none_left {a} {ds} i is h =
    exhausted-ltb a i (length ds) is.count ∙ rw (le→ltb_false i (length ds) (omega arith))

get_at :
    {m : Memory Descriptor} {a : Array} (pre : List Descriptor) (d : Descriptor)
    (post : List Descriptor)
    → IsArray m a (pre ++ d ∷ post)
    → get (iterator (length pre) a) m ≡ ok d
unfolding get
get_at pre d post is = at_index_lem pre d post is

skip_own :
    {d : Descriptor} (f : ℕ) (socket : ℤ) (it : Iterator) (m : Memory Descriptor)
    → exhausted it ≡ false
    → get it m ≡ ok d
    → (d.fd ==ℤ socket) ≡ true
    → skip_socket (suc f) socket it m ≡ skip_socket f socket (next it) m
unfolding skip_socket
skip_own f socket it m more got own = rw (more, skip_socket) (rw (got, ◌>>=◌) (rw own))

skip_stop :
    {d : Descriptor} (f : ℕ) (socket : ℤ) (it : Iterator) (m : Memory Descriptor)
    → exhausted it ≡ false
    → get it m ≡ ok d
    → (d.fd ==ℤ socket) ≡ false
    → skip_socket (suc f) socket it m ≡ ok it
unfolding skip_socket
skip_stop f socket it m more got other = rw (more, skip_socket) (rw (got, ◌>>=◌) (rw other))

-- The server's own descriptor comes first, and then one of a connection.
pub conn_iter_first :
    {d e : Descriptor} {rest : List Descriptor} (f : ℕ) (s : Server)
    → Watches s.listener (d ∷ e ∷ rest)
    → (d.fd ==ℤ s.socket) ≡ true
    → (e.fd ==ℤ s.socket) ≡ false
    → conn_iter (suc (suc f)) s ≡ ok (iterator 1 s.listener.descriptors)
unfolding conn_iter iterate
conn_iter_first {d} {e} {rest} f s w own other =
    skip_own (suc f) _ _ _ (more_left 0 w.held (omega arith)) (get_at [] d (e ∷ rest) w.held) own
    ∙ rw (next_lem 0 s.listener.descriptors)
        (skip_stop f _ _ _ (more_left 1 w.held (omega arith)) (get_at (d ∷ []) e rest w.held) other)

-- Any other descriptors behind the server's own.
abbrev pub NoneOwn : ℤ → List Descriptor → Type 0
NoneOwn socket [] = Unit {0}
NoneOwn socket (d ∷ ds) = ((d.fd ==ℤ socket) ≡ false) × NoneOwn socket ds

-- At a position where no descriptor, or one of a connection, follows, nothing is skipped.
pub skip_nothing :
    {a : Array} {m : Memory Descriptor} (f : ℕ) (socket : ℤ) (done rest : List Descriptor)
    → IsArray m a (done ++ rest)
    → NoneOwn socket rest
    → skip_socket (suc f) socket (iterator (length done) a) m ≡ ok (iterator (length done) a)
unfolding skip_socket
skip_nothing f socket done [] is other =
    rw (none_left (length done) is (omega (arith, length-append done [])), skip_socket)
skip_nothing f socket done (d ∷ rest) is other =
    skip_stop f socket _ _
      (more_left (length done) is (omega (arith, length-append done (d ∷ rest))))
      (get_at done d rest is) other.0

pub conn_iter_any :
    {d : Descriptor} {rest : List Descriptor} (f : ℕ) (s : Server)
    → Watches s.listener (d ∷ rest)
    → (d.fd ==ℤ s.socket) ≡ true
    → NoneOwn s.socket rest
    → conn_iter (suc (suc f)) s ≡ ok (iterator 1 s.listener.descriptors)
unfolding conn_iter iterate
conn_iter_any {d} {rest} f s w own other =
    skip_own (suc f) _ _ _ (more_left 0 w.held (omega arith)) (get_at [] d rest w.held) own
    ∙ rw (next_lem 0 s.listener.descriptors) (skip_nothing f s.socket (d ∷ []) rest w.held other)

pub conn_get_at :
    {a : Array} (s : Server) (done : List Descriptor) (d : Descriptor) (rest : List Descriptor)
    → IsArray s.listener.storage a (done ++ d ∷ rest)
    → conn_get (iterator (length done) a) s ≡ ok d.object
unfolding conn_get
conn_get_at s done d rest is = rw (get_at done d rest is)

pub conn_next_any :
    {a : Array} (f : ℕ) (s : Server) (done : List Descriptor) (d : Descriptor)
    (rest : List Descriptor)
    → IsArray s.listener.storage a (done ++ d ∷ rest)
    → NoneOwn s.socket rest
    → conn_next (suc f) (iterator (length done) a) s ≡ ok (iterator (length (done ++ d ∷ [])) a)
unfolding conn_next
conn_next_any {a} f s done d rest is other =
    rw
      (
        next_lem (length done) a,
        ap (λ i. iterator i a) {x = suc (length done)} {y = length (done ++ d ∷ [])}
            (omega (arith, length-append done (d ∷ []))),
      )
      (skip_nothing f s.socket (done ++ d ∷ []) rest
        (subst (IsArray s.listener.storage a) (sym (append_assoc done (d ∷ []) rest)) is) other)

pub conn_get_first :
    {d e : Descriptor} {rest : List Descriptor} (s : Server)
    → Watches s.listener (d ∷ e ∷ rest)
    → conn_get (iterator 1 s.listener.descriptors) s ≡ ok e.object
unfolding conn_get get
conn_get_first {d} {e} {rest} s w = rw (at_index_lem (d ∷ []) e rest w.held)

-- The next one is read through the iterator's own copy of the array.
pub conn_next_stale :
    {m : Memory Descriptor} {a : Array} {d e e' : Descriptor} {rest : List Descriptor} (f : ℕ)
    (s : Server)
    → IsArray m a (d ∷ e ∷ e' ∷ rest)
    → IsStale a s.listener.storage
    → conn_next (suc f) (iterator 1 a) s ≡ fault dangling
unfolding conn_next skip_socket
conn_next_stale {a} f s is stale =
    rw (next_lem 1 a) (rw (more_left 2 is (omega arith), skip_socket) (rw (stale (pos 2))))

pub conn_next_end :
    {m : Memory Descriptor} {a : Array} {d e : Descriptor} (f : ℕ) (s : Server)
    → IsArray m a (d ∷ e ∷ [])
    → conn_next (suc f) (iterator 1 a) s ≡ ok (iterator 2 a)
unfolding conn_next skip_socket
conn_next_end {a} f s is = rw (next_lem 1 a) (rw (none_left 2 is (omega arith), skip_socket))
