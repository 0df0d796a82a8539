-- ===== src/Lock.antt =====
-- libmsrv/src/msrvthread.cc, class ThreadLock: the lock and its condition variable. The mutex is
-- recursive, so for the thread that runs, `held` counts the calls of lock() that its calls of
-- unlock() have not undone yet; what waits for it is modelled in Worker.
pub mod Wait
pub mod Examples
pub mod Thread
pub mod Threads
pub mod Lifetime
use magicserver.Prelude.{ℕ, ◌+◌, ◌-◌, ◌≡◌, refl, ap, Bool, true, false, arith, if◌then◌else◌}

pub record ThreadLock : Type 0 where
  pub held : ℕ
  pub cond_inited : Bool

-- ThreadLock::ThreadLock
abbrev pub new_lock : ThreadLock
new_lock = record { held = 0; cond_inited = false }

unfoldable pub lock : ThreadLock → ThreadLock
lock l = record l { held = l.held + 1 }

unfoldable pub unlock : ThreadLock → ThreadLock
unlock l = record l { held = l.held - 1 }

-- ThreadLock::initCond
unfoldable pub init_cond : ThreadLock → ThreadLock
init_cond l = if l.cond_inited then l else record l { cond_inited = true }

pub unlock-lock : (l : ThreadLock) → unlock (lock l) ≡ l
unfolding lock unlock
unlock-lock l = ground arith
