-- ===== src/Log/Writing/Examples.antt =====
-- The theorems on what a log writes, at a log file.
use magicserver.Prelude.{List, ltb_ℤ, ◌≡◌, refl, arith, some, [], ◌∷◌, pos, negsuc, ok, Returns}
use magicserver.Errors.{success, log_write_failed}
use magicserver.Lock.{new_lock, lock}
use magicserver.Log.{LogFile, file, named}
use magicserver.Log.Writing.{
  Tm, Part, print_event, print_parts, stamp, header, body, newline, Printed, message,
}
use magicserver.Lock.Threads.{Action, call, proceed, at_rest, run}
use magicserver.Lock.Threads.Leak.{HeldBy}
use magicserver.Log.Writing.Concurrent.{Message, log_code, message_blocks}
use magicserver.Log.Writing.Messages.{Balanced, event, message_balance, message-line}

abbrev log : LogFile
log = record { filename = named "server.log"; stream = some (file 3); thread_lock = new_lock }

-- 31 January 2003
abbrev time : Tm
time = record { year = 103; mon = 0; mday = 31; hour = 12; min = 30; sec = 5 }

abbrev printed : Printed
printed = record {
  stamp_result = pos 20;
  header_result = pos 24;
  body_result = pos 0;
  newline_result = pos 1;
}

abbrev full_disk : Printed
full_disk = record printed { header_result = negsuc 0 }

on_full_disk :
    Returns
      (Balanced log)
      (message (event "SERVER" 6 (pos 0) "Connection closed.") time full_disk log)
on_full_disk = message_balance (event "SERVER" 6 (pos 0) "Connection closed.") time full_disk log

message-line_example :
    message (event "SERVER" 2 (negsuc 1001) "") time printed log
    ≡ ok (
      success,
      log,
      stamp 2003 0 31 12 30 5 ∷ header "SERVER" "CRITICAL" 1002 ∷ body "" ∷ newline ∷ [],
    )
message-line_example =
    message-line (file 3) "SERVER" "" "CRITICAL" 2 (negsuc 1001) time printed log refl refl
      (omega arith, omega arith, refl, omega arith)

-- Thread 1 fails to write; thread 2 then waits for ever.
abbrev failing : Message
failing = record { event = event "SERVER" 6 (pos 0) "Bye."; tm = time; printed = full_disk }

abbrev later : List (Action Message)
later = call 2 failing ∷ proceed 2 ∷ call 1 failing ∷ proceed 1 ∷ proceed 2 ∷ []

failing_parts : List Part
failing_parts = stamp 2003 0 31 12 30 5 ∷ header "SERVER" "INFO" 0 ∷ []

failing_lem :
    message failing.event failing.tm failing.printed log
    ≡ ok (log_write_failed, record log { thread_lock = lock log.thread_lock }, failing_parts)
unfolding message failing_parts print_event print_parts ltb_ℤ lock
failing_lem = refl

message_blocks_example :
    Returns
      (HeldBy log_code 1 ((1, (log_write_failed, failing_parts)) ∷ []))
      (run log_code (call 1 failing ∷ proceed 1 ∷ later) (at_rest log))
message_blocks_example = message_blocks log failing 1 later failing_lem (λ e. cc e)
