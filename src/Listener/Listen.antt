-- ===== src/Listener/Listen.antt =====
-- libmsrv/src/msrvlistener.cc: Listener::listen. What select answers, round by round, is an argument:
-- a failure, a timeout, or which of the descriptors have changed. The events and the shutdown are
-- those of the class that inherits, with its whole state; `listener` is the part of it that is a
-- Listener.
pub mod Watching
pub mod Dispatch
pub mod Errors
pub mod Ending
pub mod Round
pub mod Examples
use Prim.Native.String.{String}
use magicserver.Prelude.{
  ℕ, zero, suc, ◌+◌, ◌≡◌, Bool, true, false, not, Option, none, some, List, [], ◌∷◌, ◌++◌, ℤ, pos,
  negsuc, pos_part, ltb, ltb_ℤ, ◌==ℤ◌, ◌||◌, ◌&&◌, if◌then◌else◌, Outcome, ok, fault, out_of_bounds,
  out_of_fuel, ◌>>=◌,
}
use magicserver.Errors.{MsrvResult, success, select_failed, shutdown_event, too_many_errors}
use magicserver.Lock.{lock, unlock}
use magicserver.Memory.{Ptr, Memory}
use magicserver.Container.Array.{Array, array_length, at_index}
use magicserver.Log.Writing.{Event}
use magicserver.Listener.{Descriptor, Listener, start_shutdown, is_shutdown, log_event, rounds}

-- MSRV_MAX_SELECT_ERROR_COUNT
abbrev pub max_select_error_count : ℕ
max_select_error_count = 10

-- select: -1, 0, or more, with the descriptors that have changed.
pub data Answer : Type 0 where
  failed timed_out : Answer
  ready : (ℤ → Bool) → Answer

-- FD_SETSIZE of sys/select.h
abbrev pub fd_setsize : ℤ
fd_setsize = pos 1024

-- POSIX leaves FD_SET and FD_ISSET undefined for a number that is negative or not below FD_SETSIZE;
-- they reach beyond the set's storage.
unfoldable pub beyond_set : ℤ → Bool
beyond_set fd = ltb_ℤ fd (pos 0) || not (ltb_ℤ fd fd_setsize)

-- FD_SET
pub fd_set : ℤ → List ℤ → Outcome (List ℤ)
unfolding beyond_set
fd_set fd fds = if beyond_set fd then fault out_of_bounds else ok (fds ++ fd ∷ [])

pub is_member : ℤ → List ℤ → Bool
is_member fd [] = false
is_member fd (x ∷ fds) = (x ==ℤ fd) || is_member fd fds

-- FD_ISSET after select: a descriptor that was in the set, and that select has left in it.
pub fd_isset : (ℤ → Bool) → List ℤ → ℤ → Outcome Bool
unfolding beyond_set is_member
fd_isset changed fds fd =
    if beyond_set fd then fault out_of_bounds else ok (is_member fd fds && changed fd)

-- The descriptors that are put into the set, and the highest, from position `i` on.
pub watch_loop : ℕ → ℕ → ℤ → List ℤ → Array → Memory Descriptor → Outcome (ℤ × List ℤ)
watch_loop zero i maxfd fds a m = out_of_fuel
watch_loop (suc f) i maxfd fds a m = elim (ltb_ℤ (pos i) (array_length a)) [
  | false ↦ ok (maxfd, fds)
  | true ↦ do
    d ← at_index a (pos i) m
    fds' ← fd_set d.fd fds
    watch_loop f (suc i) (if ltb_ℤ maxfd d.fd then d.fd else maxfd) fds' a m
]

abbrev pub message_of : ℤ → MsrvResult → String → Event
message_of fatality errno text = record {
  modulename = "LISTENER";
  fatality = fatality;
  errno = errno;
  text = some text;
}

-- A class that inherits from Listener.
pub record Inheritor (S : Type 0) : Type 0 where
  pub listener : S → Listener
  pub put : Listener → S → S
  pub descriptor_event : ℤ → Ptr → S → Outcome (MsrvResult × S)
  pub timeout_event : S → Outcome (MsrvResult × S)
  pub on_shutdown : S → Outcome (MsrvResult × S)

-- What is put into the state is what stands there then.
abbrev pub IsInheritor : {S : Type 0} → Inheritor S → Type 0
IsInheritor {S} c = (l : Listener) (s : S) → c.listener (c.put l s) ≡ l

-- The methods of Listener itself: they do nothing.
abbrev pub base_listener : Inheritor Listener
base_listener = record {
  listener = λ l. l;
  put = λ l s. l;
  descriptor_event = λ fd p s. ok (success, s);
  timeout_event = λ s. ok (success, s);
  on_shutdown = λ s. ok (success, s);
}

-- The descriptors that are closed at the end, from position `i` on.
pub close_loop : ℕ → ℕ → Array → Memory Descriptor → Outcome (List ℤ)
close_loop zero i a m = out_of_fuel
close_loop (suc f) i a m = elim (ltb_ℤ (pos i) (array_length a)) [
  | false ↦ ok []
  | true ↦ do d ← at_index a (pos i) m; fds ← close_loop f (suc i) a m; ok (d.fd ∷ fds)
]

module _ {S : Type 0} (c : Inheritor S) where
  abbrev change : (Listener → Listener) → S → S
  change f s = c.put (f (c.listener s)) s

  -- An event that answers MSRVERR_SHUTDOWN_EVENT starts the shutdown; other errors are ignored.
  unfoldable pub after_event : MsrvResult × S → S
  unfolding start_shutdown
  after_event (result, s) = if result ==ℤ shutdown_event then change start_shutdown s else s

  -- The loop over the descriptors, from position `i` on.
  pub dispatch_loop : ℕ → ℕ → (ℤ → Bool) → List ℤ → S → Outcome S
  unfolding after_event
  dispatch_loop zero i changed fds s = out_of_fuel
  dispatch_loop (suc f) i changed fds s =
      elim (ltb_ℤ (pos i) (array_length (c.listener s).descriptors)) [
        | false ↦ ok s
        | true ↦ do
          d ← at_index (c.listener s).descriptors (pos i) (c.listener s).storage
          isset ← fd_isset changed fds d.fd
          elim isset [
            | false ↦ dispatch_loop f (suc i) changed fds s
            | true ↦ do
              r ← c.descriptor_event d.fd d.object s
              dispatch_loop f (suc i) changed fds (after_event r)
          ]
      ]

  -- What follows select on the set `fds`: the new error count and state. `f` is fuel for the loop over descriptors,
  -- since an event may add some.
  pub handle_answer : ℕ → Answer → List ℤ → ℕ → S → Outcome (ℕ × S)
  unfolding after_event dispatch_loop lock unlock
  handle_answer f failed fds errors s = ok (
    suc errors,
    change (log_event (message_of (pos 4) select_failed "Select failed with error %d; %s.")) s,
  )
  handle_answer f timed_out fds errors s = do r ← c.timeout_event s; ok (errors, after_event r)
  handle_answer f (ready changed) fds errors s = do
    s₁ ←
        dispatch_loop f 0 changed fds
          (change (λ l. record l { thread_lock = lock l.thread_lock }) s)
    ok (0, change (λ l. record l { thread_lock = unlock l.thread_lock }) s₁)

  -- The test of the error count.
  pub check_errors : ℕ → S → S
  unfolding start_shutdown
  check_errors errors s =
      if ltb max_select_error_count errors
      then change start_shutdown
          (change (log_event (message_of (pos 2) too_many_errors "Too many errors in select.")) s)
      else s

  -- The loop, until the shutdown; it takes an answer of select in each round.
  pub listen_loop : ℕ → List Answer → ℕ → S → Outcome S
  listen_loop f [] errors s = out_of_fuel
  listen_loop f (a ∷ answers) errors s = do
    (_, fds) ←
        watch_loop (rounds (c.listener s).descriptors) 0 (pos 0) [] (c.listener s).descriptors
          (c.listener s).storage
    (errors', s₁) ← handle_answer f a fds errors s
    let s₂ = check_errors errors' s₁
    elim (is_shutdown (c.listener s₂)) [ true ↦ ok s₂ | false ↦ listen_loop f answers errors' s₂ ]

  -- MSrvResult Listener::listen (): its result, the state, and what was passed to ::close.
  pub listen : ℕ → List Answer → S → Outcome (MsrvResult × S × List ℤ)
  unfolding close_loop
  listen f answers s = do
    s₁ ←
        listen_loop f answers 0
          (change (log_event (message_of (pos 6) success "Starting listening...")) s)
    (_, s₂) ← c.on_shutdown s₁
    let l = c.listener s₂
    fds ← close_loop (rounds l.descriptors) 0 l.descriptors l.storage
    ok (
      success,
      if ltb_ℤ (pos 0) (array_length l.descriptors)
          then change
              (log_event
                (message_of (pos 4) success "%d still open descriptors were closed by Listener."))
              s₂
          else s₂,
      fds,
    )
