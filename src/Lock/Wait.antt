-- ===== src/Lock/Wait.antt =====
-- libmsrv/src/msrvthread.cc: ThreadLock::wait, signal and broadcast. A time span is a whole number of
-- nanoseconds, the finest that the code keeps of its `double`. The time of day and the answer of
-- pthread_cond_timedwait are arguments.
use magicserver.Prelude.{
  ℕ, ◌+◌, ◌*◌, ◌/◌, ◌%◌, ◌≤◌, ◌<◌, ◌≡◌, true, arith, ℤ, pos, negsuc, ◌==◌, if◌then◌else◌,
  ne→==_false,
}
use magicserver.Errors.{MsrvResult, success, timeout}
use magicserver.Lock.{ThreadLock, lock, unlock, init_cond}

-- struct timeval
pub record TimeOfDay : Type 0 where
  pub sec : ℕ
  pub usec : ℕ

-- struct timespec
pub record Timespec : Type 0 where
  pub tv_sec : ℕ
  pub tv_nsec : ℕ

-- What errno.h gives these names for.
abbrev pub etimedout : ℕ
etimedout = 110

abbrev pub einval : ℕ
einval = 22

-- The time at which a wait of `span` nanoseconds ends.
pub deadline : TimeOfDay → ℕ → Timespec
deadline now span = record {
  tv_sec = now.sec + span / 1_000_000_000;
  tv_nsec = now.usec * 1000 + span % 1_000_000_000;
}

-- The part of wait between its lock () and its unlock ().
pub wait_result : (Timespec → ℕ) → TimeOfDay → ℤ → MsrvResult
unfolding deadline
wait_result timedwait now (pos span) =
    if span == 0
    then success
    else if timedwait (deadline now span) == etimedout
    then timeout
    else success
wait_result timedwait now (negsuc n) = success

-- MSrvResult ThreadLock::wait (double seconds). `timedwait` is what pthread_cond_timedwait returns.
pub wait : (Timespec → ℕ) → TimeOfDay → ℤ → ThreadLock → MsrvResult × ThreadLock
unfolding wait_result
wait timedwait now span l = (wait_result timedwait now span, unlock (init_cond (lock l)))

-- MSrvResult ThreadLock::signal (), and likewise broadcast ().
pub signal : ThreadLock → MsrvResult × ThreadLock
signal l = (success, unlock (init_cond (lock l)))

pub broadcast : ThreadLock → MsrvResult × ThreadLock
broadcast l = (success, unlock (init_cond (lock l)))

-- wait, signal and broadcast release the lock that they take, and leave the condition variable
-- initialised; a wait without a time span returns success.
pub wait_balance :
    (timedwait : Timespec → ℕ) (now : TimeOfDay) (span : ℤ) (l : ThreadLock)
    → ((wait timedwait now span l).1 ≡ record l { cond_inited = true })
      × ((signal l).1 ≡ record l { cond_inited = true })
      × ((broadcast l).1 ≡ record l { cond_inited = true })
      × ((wait timedwait now (pos 0) l).0 ≡ success)
unfolding wait signal broadcast lock unlock init_cond
wait_balance timedwait now span l = ground arith

-- The time at which a wait ends is the current time and the time span together, counted in
-- nanoseconds.
pub deadline_total :
    (now : TimeOfDay) (span : ℕ)
    → (deadline now span).tv_sec * 1_000_000_000 + (deadline now span).tv_nsec
      ≡ now.sec * 1_000_000_000 + now.usec * 1000 + span
unfolding deadline
deadline_total now span = omega arith

-- POSIX lets pthread_cond_timedwait refuse a time whose nanoseconds are a second or more. Whenever
-- the microseconds of the current time and the fraction of the time span make a second or more, a
-- wait with a time span therefore does not wait, and returns success.
pub wait_refused :
    (timedwait : Timespec → ℕ) (now : TimeOfDay) (span : ℕ) (l : ThreadLock)
    → ((t : Timespec) → 1_000_000_000 ≤ t.tv_nsec → timedwait t ≡ einval)
    → 0 < span
    → 1_000_000_000 ≤ now.usec * 1000 + span % 1_000_000_000
    → (timedwait (deadline now span) ≡ einval) × ((wait timedwait now (pos span) l).0 ≡ success)
unfolding wait deadline
wait_refused timedwait now span l refuses positive over =
    (e, rw (ne→==_false span 0 (omega arith), e))
  where
    e : timedwait (deadline now span) ≡ einval
    e = refuses (deadline now span) over
