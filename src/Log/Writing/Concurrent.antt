-- ===== src/Log/Writing/Concurrent.antt =====
-- LogFile::message of libmsrv/src/msrvlog.cc, called by several threads on one log. The call holds the
-- log's lock from its first line to its return, so that no other thread's step comes between.
use magicserver.Prelude.{
  ℕ, ◌≡◌, ◌≢◌, refl, ap, subst, eq→==, ne→==_false, inl, inr, arith, List, [], ◌∷◌, Outcome, ok,
  ◌>>=◌, Returns, returns, Returns-bind,
}
use magicserver.Errors.{MsrvResult, success}
use magicserver.Lock.{lock}
use magicserver.Lock.Threads.{
  Place, returned, Code, Action, call, proceed, at_rest, run, act, advance, begin, stepped, idle,
  calling, set_status,
}
use magicserver.Lock.Threads.Leak.{set_status-others, HeldBy, KeepsLock, run-HeldBy, no_more}
use magicserver.Log.{LogFile}
use magicserver.Log.Writing.{Tm, Part, Printed, Event, message}
use magicserver.Log.Writing.Messages.{Balanced, message_balance}

-- A call of message, with what localtime and the calls of fprintf answer.
pub record Message : Type 0 where
  pub event : Event
  pub tm : Tm
  pub printed : Printed

abbrev pub Written : Type 0
Written = MsrvResult × List Part

pub message_step : Message → LogFile → Outcome (Place Message Written × LogFile)
unfolding message
message_step c l = do
  (result, l₁, parts) ← message c.event c.tm c.printed l
  ok (returned (result, parts), l₁)

-- The log's operation, for the threads that share it.
abbrev pub log_code : Code LogFile Message Message Written
log_code = record { start = λ c. c; next = message_step; depth = λ l. l.thread_lock.held }

log-KeepsLock : KeepsLock log_code
unfolding message_step lock
log-KeepsLock c l d =
    Returns-bind (message_balance c.event c.tm c.printed l) λ (r, l', parts) (_, _, b).
      returns (elim b [
        | inl (_, e) ↦ λ z. d (ground (arith, ap (λ m. m.held) e, z))
        | inr (_, e) ↦ λ z. ground (arith, ap (λ m. m.held) e, z)
      ])

-- A message that fails leaves the lock held.
failed_locked :
    {l l₁ : LogFile} {result : MsrvResult} {parts : List Part}
    → Returns (Balanced l) (ok (result, l₁, parts))
    → result ≢ success
    → l₁.thread_lock.held ≢ 0
unfolding lock
failed_locked (returns (_, _, inl (e, _))) failed z = failed e
failed_locked (returns (_, _, inr (_, e))) failed z = ground (arith, ap (λ m. m.held) e, z)

-- On a log that no thread uses, a thread calls message and gets an error. Whatever steps the threads
-- then take, in whatever order, no step fails, the thread keeps the log's lock, no other thread gets
-- past it, and all calls that return later are calls of that thread.
pub message_blocks :
    {l₁ : LogFile} {result : MsrvResult} {parts : List Part} (l : LogFile) (c : Message) (i : ℕ)
    (actions : List (Action Message))
    → message c.event c.tm c.printed l ≡ ok (result, l₁, parts)
    → result ≢ success
    → Returns
        (HeldBy log_code i ((i, (result, parts)) ∷ []))
        (run log_code (call i c ∷ proceed i ∷ actions) (at_rest l))
unfolding run act advance begin stepped message_step
message_blocks {l₁} {result} {parts} l c i actions e failed =
    let locked : l₁.thread_lock.held ≢ 0 =
      failed_locked (subst (Returns (Balanced l)) e (message_balance c.event c.tm c.printed l))
        failed in
    rw (eq→== i i refl, message_step, e, ne→==_false l₁.thread_lock.held 0 locked)
      (run-HeldBy log_code i ((i, (result, parts)) ∷ []) actions _ log-KeepsLock (record {
        owned = refl;
        locked = locked;
        outside = λ j ne.
            set_status-others log_code i idle (set_status i (calling c) (λ k. idle))
              (λ k ne'. rw (ne→==_false k i ne') tt) j ne;
        later = [];
        returned_since = refl;
        its_own = no_more;
      }))
