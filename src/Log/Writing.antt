-- ===== src/Log/Writing.antt =====
-- libmsrv/src/msrvlog.cc: LogFile::write and LogFile::message. Each takes the lock first.
pub mod Messages
pub mod Concurrent
pub mod Examples
use Prim.Native.String.{String}
use magicserver.Prelude.{
  ℕ, ◌+◌, Bool, true, false, Option, none, some, List, [], ◌∷◌, ℤ, pos, ltb_ℤ, ◌||◌, not, get_elem?,
  neg_part, pos_part, if◌then◌else◌, Outcome, ok, out_of_bounds, ◌>>=◌, or_fault,
}
use magicserver.Errors.{
  MsrvResult, success, null_argument, short_write, log_not_open, log_invalid_fatality,
  log_write_failed,
}
use magicserver.Lock.{lock, unlock}
use magicserver.Log.{LogFile}

-- MSrvResult LogFile::write (const char* data, int len). `written` is what fwrite returns.
pub write_data : Option String → ℤ → ℤ → LogFile → MsrvResult × LogFile
unfolding lock unlock
write_data text len written l = elim l.stream [
  | none ↦ (log_not_open, locked)
  | some _ ↦ elim text [
    | none ↦ (null_argument, locked)
    | some _ ↦
        if ltb_ℤ written len
        then (short_write, locked)
        else (success, record l { thread_lock = unlock locked.thread_lock })
  ]
]
  where
    locked : LogFile
    locked = record l { thread_lock = lock l.thread_lock }

-- The fields of a `struct tm`: years since 1900, months since January.
pub record Tm : Type 0 where
  pub year : ℕ
  pub mon : ℕ
  pub mday : ℕ
  pub hour : ℕ
  pub min : ℕ
  pub sec : ℕ

-- What one call of fprintf puts into the log: the time, the line's header, the message for its format
-- string, the end of the line.
pub data Part : Type 0 where
  stamp : (year month day hour minute second : ℕ) → Part
  header : String → String → ℕ → Part
  body : String → Part
  newline : Part

-- The values that the four calls return.
pub record Printed : Type 0 where
  pub stamp_result : ℤ
  pub header_result : ℤ
  pub body_result : ℤ
  pub newline_result : ℤ

abbrev pub fatalities : List String
fatalities =
    "EMERGENCY" ∷ "ALERT" ∷ "CRITICAL" ∷ "ERROR" ∷ "WARNING" ∷ "NOTICE" ∷ "INFO" ∷ "DEBUG" ∷ []

-- Log::Debug, the highest fatality.
abbrev pub debug : ℤ
debug = pos 7

-- What message was called with.
pub record Event : Type 0 where
  pub modulename : String
  pub fatality : ℤ
  pub errno : ℤ
  pub text : Option String

-- The tests before anything is written.
pub refused : Event → LogFile → Option MsrvResult
refused e l = elim l.stream [
  | none ↦ some log_not_open
  | some _ ↦ elim e.text [
    | none ↦ some null_argument
    | some _ ↦
        if ltb_ℤ e.fatality (pos 0) || ltb_ℤ debug e.fatality
        then some log_invalid_fatality
        else none
  ]
]

-- The sign of the error code is dropped.
pub error_number : ℤ → ℕ
error_number n = if ltb_ℤ n (pos 0) then neg_part n else pos_part n

abbrev fails : ℤ → Bool
fails written = not (ltb_ℤ (pos 0) written)

-- The four calls, up to the first that fails: the result, and what was handed to fprintf.
pub print_parts : String → String → ℕ → String → Tm → Printed → MsrvResult × List Part
print_parts modulename name n text tm p =
    if fails p.stamp_result
    then (log_write_failed, time ∷ [])
    else if fails p.header_result
    then (log_write_failed, time ∷ head ∷ [])
    else if ltb_ℤ p.body_result (pos 0)
    then (log_write_failed, time ∷ head ∷ body text ∷ [])
    else if fails p.newline_result
    then (log_write_failed, time ∷ head ∷ body text ∷ newline ∷ [])
    else (success, time ∷ head ∷ body text ∷ newline ∷ [])
  where
    time : Part
    time = stamp (1900 + tm.year) tm.mon tm.mday tm.hour tm.min tm.sec

    head : Part
    head = header modulename name n

-- After the tests: print, and release the lock if all went well.
pub print_event :
    Event → String → Tm → Printed → LogFile → Outcome (MsrvResult × LogFile × List Part)
unfolding print_parts error_number lock unlock
print_event e text tm p l = do
  name ← or_fault out_of_bounds (get_elem? fatalities (pos_part e.fatality))
  let (result, parts) = print_parts e.modulename name (error_number e.errno) text tm p
  let locked = lock l.thread_lock
  ok (result, record l { thread_lock = elim result [ pos _ ↦ unlock locked | _ ↦ locked ] }, parts)

-- MSrvResult LogFile::message (modulename, fatality, errno, message, ...)
pub message : Event → Tm → Printed → LogFile → Outcome (MsrvResult × LogFile × List Part)
unfolding print_event refused
message e tm p l = elim (refused e l) [
  | some result ↦ ok (result, record l { thread_lock = lock l.thread_lock }, [])
  | none ↦ elim e.text [
    | none ↦ ok (null_argument, record l { thread_lock = lock l.thread_lock }, [])
    | some text ↦ print_event e text tm p l
  ]
]
