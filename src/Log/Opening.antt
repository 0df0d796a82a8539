-- ===== src/Log/Opening.antt =====
-- Opening, closing and destroying a LogFile.
use Prim.Native.String.{String}
use text.Mathlib.Text.{◌==◌ as str_eq}
use magicserver.Prelude.{ℕ, ◌≡◌, refl, false, Option, none, some, ok, fault, bad_free}
use magicserver.Errors.{success, log_already_open, log_open_failed}
use magicserver.Lock.{new_lock, lock, unlock, ThreadLock, unlock-lock}
use magicserver.Log.{
  LogFile, Stream, stdout, file, named, from_stream, open_log, close_log, destroy_log, set_filename,
  from_filename, open_named, delete_name,
}

-- Opening a closed log that is named after a file, when fopen succeeds, and closing it again gives
-- the log back; while it is open, a second open is refused and changes nothing; and when fopen
-- fails, open says so and changes nothing.
pub close_log-open_log :
    (s : String) (f : ℕ) (again : Option ℕ) (t : ThreadLock)
    → str_eq s "-" ≡ false
    → let closed : LogFile = record { filename = named s; stream = none; thread_lock = t } in
      let opened : LogFile = record closed { stream = some (file f) } in
      (open_log (some f) closed ≡ ok (success, opened))
      × (close_log opened ≡ closed)
      × (open_log again opened ≡ ok (log_already_open, opened))
      × (open_log none closed ≡ ok (log_open_failed, closed))
unfolding open_log close_log
close_log-open_log s f again t h =
    (rw (unlock-lock t, h), rw (unlock-lock t), rw (unlock-lock t), rw (unlock-lock t, h))

-- A log on standard output cannot be moved to a file: whatever name is set, close leaves the stream,
-- so the open that follows is refused.
pub set_filename_stdout :
    (old new : String) (f : Option ℕ) (t : ThreadLock)
    → let l : LogFile = record { filename = named old; stream = some stdout; thread_lock = t } in
      let moved : LogFile = record l { filename = named new } in
      (set_filename (some new) l ≡ ok (success, moved))
      × (close_log moved ≡ moved)
      × (open_log f moved ≡ ok (log_already_open, moved))
unfolding set_filename open_log close_log
set_filename_stdout old new f t = (rw (unlock-lock t), rw (unlock-lock t), rw (unlock-lock t))

-- A log that was made for a stream has no file name set, and its destructor frees what the unset
-- member holds.
pub destroy_log-from_stream : (s : Option Stream) → destroy_log (from_stream s) ≡ fault bad_free
unfolding destroy_log
destroy_log-from_stream none = refl
destroy_log-from_stream (some stdout) = refl
destroy_log-from_stream (some (file f)) = refl

-- The log of a program on standard output.
abbrev pub console : LogFile
console = record { filename = named "-"; stream = some stdout; thread_lock = new_lock }

pub from_filename_stdout : (f : Option ℕ) → from_filename (some "-") f ≡ ok (success, console)
unfolding from_filename open_log open_named lock unlock
from_filename_stdout f = refl

pub destroy_log_stdout : destroy_log console ≡ ok console
unfolding destroy_log close_log delete_name lock unlock
destroy_log_stdout = refl
