-- ===== src/Lock/Thread.antt =====
-- libmsrv/src/msrvthread.cc, class Thread: the flag that says whether a thread was joined. What
-- pthread_create and pthread_join return are arguments.
use magicserver.Prelude.{
  ℕ, ◌≡◌, ◌≢◌, ◌↔◌, Bool, true, false, arith, ℤ, pos, ltb_ℤ, ◌==ℤ◌, if◌then◌else◌,
}
use magicserver.Errors.{MsrvResult, success, thread_create_failed, thread_join_failed}

pub record Thread : Type 0 where
  pub has_joined : Bool

-- Thread::Thread ()
abbrev pub new_thread : Thread
new_thread = record { has_joined = true }

-- MSrvResult Thread::start ()
pub start : ℤ → Thread → MsrvResult × Thread
start created t =
    if ltb_ℤ created (pos 0)
    then (thread_create_failed, t)
    else (success, record t { has_joined = false })

-- MSrvResult Thread::join (void** ppReturnValue)
pub join : ℤ → Thread → MsrvResult × Thread
join joined t =
    (if joined ==ℤ pos 0 then success else thread_join_failed, record t { has_joined = true })

-- pthread_create reports a failure by a positive number. start takes every such number for success:
-- the thread object counts as running and not joined, though no thread was made.
pub start_failure :
    (error : ℕ) (t : Thread) → start (pos error) t ≡ (success, record t { has_joined = false })
unfolding start ltb_ℤ
start_failure error t = ground arith

-- join marks the thread as joined whatever pthread_join returns, and reports an error exactly when
-- that is not zero.
pub join_marks :
    (joined : ℤ) (t : Thread)
    → ((join joined t).1 ≡ record { has_joined = true })
      × ((join joined t).0 ≡ thread_join_failed ↔ joined ≢ pos 0)
unfolding join ◌==ℤ◌
join_marks joined t = ground arith
