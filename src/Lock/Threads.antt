-- ===== src/Lock/Threads.antt =====
-- Threads that call the operations of an object which guards its members with a ThreadLock of
-- libmsrv/src/msrvthread.cc. An operation is cut into the steps between which another thread may run; its first step is
-- the lock(), and after the unlock() that undoes it no step touches the object. Any thread may take the
-- next step at any time.
pub mod Atomic
pub mod Leak
pub mod Progress
use magicserver.Prelude.{
  ℕ, zero, suc, Bool, true, false, Option, none, some, List, [], ◌∷◌, ◌++◌, ◌==◌, if◌then◌else◌,
  Outcome, ok, ◌>>=◌,
}

-- What a step leaves of an operation: the rest of it, or its result.
pub data Place (K R : Type 0) : Type 0 where
  more : K → Place K R
  returned : R → Place K R

-- An object's operations: the first step of each, what a step does, and how often the object's lock
-- is held.
pub record Code (S Op K R : Type 0) : Type 0 where
  pub start : Op → K
  pub next : K → S → Outcome (Place K R × S)
  pub depth : S → ℕ

-- What a thread does: nothing with the object; at the lock() of an operation, which may have to wait;
-- or behind it.
pub data Status (Op K : Type 0) : Type 0 where
  idle : Status Op K
  calling : Op → Status Op K
  inside : K → Status Op K

-- `owner` is the thread that holds the lock. `calls` are the operations, with their threads, in the
-- order in which they took the lock, `results` what they returned, in the order in which they ended.
pub record Threads (S Op K R : Type 0) : Type 0 where
  pub shared : S
  pub owner : Option ℕ
  pub status : ℕ → Status Op K
  pub calls : List (ℕ × Op)
  pub results : List (ℕ × R)

-- What may happen next: a thread calls an operation, or takes its next step.
pub data Action (Op : Type 0) : Type 0 where
  call : ℕ → Op → Action Op
  proceed : ℕ → Action Op

-- Nobody uses the object.
abbrev pub at_rest : {S Op K R : Type 0} → S → Threads S Op K R
at_rest s = record { shared = s; owner = none; status = λ i. idle; calls = []; results = [] }

-- pthread_mutex_lock lets a thread pass: the mutex is free, or it is its own already.
abbrev pub may_lock : ℕ → Option ℕ → Bool
may_lock i none = true
may_lock i (some j) = i == j

abbrev pub set_status : {Op K : Type 0} → ℕ → Status Op K → (ℕ → Status Op K) → ℕ → Status Op K
set_status i st status j = if j == i then st else status j

module _ {S Op K R : Type 0} where
  -- What a step of thread `i` changes.
  unfoldable pub stepped : Code S Op K R → ℕ → Place K R × S → Threads S Op K R → Threads S Op K R
  stepped code i (more k, s) t = record t {
    shared = s;
    owner = if code.depth s == 0 then none else some i;
    status = set_status i (inside k) t.status;
  }
  stepped code i (returned r, s) t = record t {
    shared = s;
    owner = if code.depth s == 0 then none else some i;
    status = set_status i idle t.status;
    results = t.results ++ (i, r) ∷ [];
  }

  -- A step of thread `i`. It changes nothing if the thread has to wait for the lock.
  unfoldable pub advance :
      Code S Op K R → ℕ → Status Op K → Threads S Op K R → Outcome (Threads S Op K R)
  unfolding stepped
  advance code i idle t = ok t
  advance code i (calling op) t =
      if may_lock i t.owner
      then (do
        r ← code.next (code.start op) t.shared
        ok (stepped code i r (record t { calls = t.calls ++ (i, op) ∷ [] })))
      else ok t
  advance code i (inside k) t = do r ← code.next k t.shared; ok (stepped code i r t)

  -- A thread calls one operation at a time.
  unfoldable pub begin : ℕ → Op → Status Op K → Threads S Op K R → Threads S Op K R
  begin i op idle t = record t { status = set_status i (calling op) t.status }
  begin i op st t = t

  unfoldable pub act : Code S Op K R → Action Op → Threads S Op K R → Outcome (Threads S Op K R)
  unfolding advance begin
  act code (call i op) t = ok (begin i op (t.status i) t)
  act code (proceed i) t = advance code i (t.status i) t

  unfoldable pub run :
      Code S Op K R → List (Action Op) → Threads S Op K R → Outcome (Threads S Op K R)
  unfolding act
  run code [] t = ok t
  run code (a ∷ rest) t = do t₁ ← act code a t; run code rest t₁
