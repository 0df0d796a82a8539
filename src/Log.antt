-- ===== src/Log.antt =====
-- libmsrv/src/msrvlog.cc and libmsrv/include/magicserver/msrvlog.h: class LogFile. What the C library
-- answers (a stream from fopen, the counts that fwrite and fprintf return, the time of day) are
-- arguments of the methods that ask for it. `delete` of a name is taken as `free`.
pub mod Opening
pub mod Writing
use Prim.Native.String.{String}
use text.Mathlib.Text.{◌==◌ as str_eq}
use magicserver.Prelude.{
  ℕ, ◌+◌, Bool, true, false, Option, none, some, List, [], ◌∷◌, ◌++◌, ℤ, pos, negsuc, ltb_ℤ, ◌||◌,
  not, get_elem?, neg_part, pos_part, if◌then◌else◌, Outcome, ok, fault, dangling, bad_free,
  out_of_bounds, ◌>>=◌, or_fault,
}
use magicserver.Errors.{
  MsrvResult, success, null_argument, short_write, log_no_filename, log_already_open,
  log_open_failed, log_not_open, log_invalid_fatality, log_write_failed,
}
use magicserver.Lock.{ThreadLock, new_lock, lock, unlock}

-- A FILE*: standard output, or a file that fopen gave.
pub data Stream : Type 0 where
  stdout : Stream
  file : ℕ → Stream

-- The member mpFilename. A constructor leaves it unset, so it may hold anything.
pub data FileName : Type 0 where
  unset : FileName
  no_name : FileName
  named : String → FileName

pub record LogFile : Type 0 where
  pub filename : FileName
  pub stream : Option Stream
  pub thread_lock : ThreadLock

-- LogFile::LogFile (FILE* stream)
abbrev pub from_stream : Option Stream → LogFile
from_stream s = record { filename = unset; stream = s; thread_lock = new_lock }

-- delete mpFilename
pub delete_name : FileName → Outcome (Unit {0})
delete_name unset = fault bad_free
delete_name no_name = ok tt
delete_name (named s) = ok tt

-- MSrvResult LogFile::setFilename (const char* filename)
pub set_filename : Option String → LogFile → Outcome (MsrvResult × LogFile)
unfolding delete_name lock unlock
set_filename none l = ok (log_no_filename, l)
set_filename (some s) l = do
  _ ← delete_name l.filename
  ok (success, record l { filename = named s; thread_lock = unlock (lock l.thread_lock) })

-- The part of open that runs while no error is set: "-" names standard output.
pub open_named : String → Option ℕ → MsrvResult × Option Stream
open_named s opened =
    if str_eq s "-"
    then (success, some stdout)
    else elim opened [ none ↦ (log_open_failed, none) | some f ↦ (success, some (file f)) ]

-- MSrvResult LogFile::open (). `opened` is what fopen returns, if it is called.
pub open_log : Option ℕ → LogFile → Outcome (MsrvResult × LogFile)
unfolding open_named lock unlock
open_log opened l = elim l.filename [
  | no_name ↦ ok (log_no_filename, released)
  | unset ↦ elim l.stream [ some s ↦ ok (log_already_open, released) | none ↦ fault dangling ]
  | named s ↦ elim l.stream [
    | some _ ↦ ok (log_already_open, released)
    | none ↦
        let (result, stream) = open_named s opened in
        ok (result, record released { stream = stream })
  ]
]
  where
    released : LogFile
    released = record l { thread_lock = unlock (lock l.thread_lock) }

-- LogFile::LogFile (const char* filename). A negative result of open is thrown as an exception.
pub from_filename : Option String → Option ℕ → Outcome (MsrvResult × LogFile)
unfolding open_log
from_filename name opened = open_log opened (record {
  filename = elim name [ none ↦ no_name | some s ↦ named s ];
  stream = none;
  thread_lock = new_lock;
})

-- void LogFile::close ()
pub close_log : LogFile → LogFile
unfolding lock unlock
close_log l = elim l.stream [
  | some (file f) ↦ record l { stream = none; thread_lock = unlock (lock l.thread_lock) }
  | _ ↦ record l { thread_lock = unlock (lock l.thread_lock) }
]

-- LogFile::~LogFile ()
pub destroy_log : LogFile → Outcome LogFile
unfolding close_log delete_name lock unlock
destroy_log l = do
  let closed = close_log (record l { thread_lock = lock l.thread_lock })
  _ ← delete_name closed.filename
  ok (record closed { thread_lock = unlock closed.thread_lock })
