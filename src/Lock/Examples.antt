-- ===== src/Lock/Examples.antt =====
-- The theorems on locks and threads at concrete times and results.
use magicserver.Lock.Lifetime.{
  LockUse, waits, signals, locks, unlocks, allowed_all, lock_lifetime, no_objects, attributes_only,
  leaked, needs_cond, lock_lifetime_lem,
}
use magicserver.Prelude.{
  some, none, List, [], ◌∷◌, ℕ, ◌≤◌, ◌≡◌, arith, true, pos, leb, if◌then◌else◌,
}
use magicserver.Errors.{success}
use magicserver.Lock.{new_lock}
use magicserver.Lock.Wait.{
  TimeOfDay, Timespec, einval, etimedout, deadline, wait, signal, broadcast, wait_balance,
  wait_refused,
}

-- A clock that stands at 0.6 seconds.
abbrev now : TimeOfDay
now = record { sec = 0; usec = 600_000 }

-- What POSIX lets it do: it refuses a second or more of nanoseconds, and else the time passes.
timedwait : Timespec → ℕ
timedwait t = if leb 1_000_000_000 t.tv_nsec then einval else etimedout

five_waits :
    ((wait timedwait now (pos 5) new_lock).1 ≡ record new_lock { cond_inited = true })
    × ((signal new_lock).1 ≡ record new_lock { cond_inited = true })
    × ((broadcast new_lock).1 ≡ record new_lock { cond_inited = true })
    × ((wait timedwait now (pos 0) new_lock).0 ≡ success)
five_waits = wait_balance timedwait now (pos 5) new_lock

timedwait_refuses : (t : Timespec) → 1_000_000_000 ≤ t.tv_nsec → timedwait t ≡ einval
unfolding timedwait
timedwait_refuses t h = ground arith

-- A wait of half a second.
wait_refused_example :
    (timedwait (deadline now 500_000_000) ≡ einval)
    × ((wait timedwait now (pos 500_000_000) new_lock).0 ≡ success)
wait_refused_example =
    wait_refused timedwait now 500_000_000 new_lock timedwait_refuses (omega arith) (omega arith)

-- A lock that is waited for twice.
abbrev uses : List LockUse
uses = waits (pos 0) ∷ signals ∷ locks ∷ waits (pos 5) ∷ unlocks ∷ []

lock_lifetime_lem_example :
    (allowed_all (lock_lifetime uses) attributes_only ≡ some (leaked true uses))
    × (allowed_all (lock_lifetime uses) no_objects ≡ none)
unfolding needs_cond
lock_lifetime_lem_example = lock_lifetime_lem uses
