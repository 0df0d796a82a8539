-- ===== src/Container/Queue/Steps.antt =====
-- Queue::push and Queue::pull of libmsrv/include/magicserver/msrvcontainer.h in the steps between
-- which another thread may run: one for each statement that reads or writes a member of the queue or
-- of an item.
pub mod Alone
pub mod Concurrent
pub mod Examples
use magicserver.Prelude.{ℕ, Option, none, some, ◌==◌, if◌then◌else◌, Outcome, ok, ◌>>=◌}
use magicserver.Lock.{lock, unlock}
use magicserver.Lock.Threads.{Place, more, returned, Code}
use magicserver.Memory.{Ptr, null}
use magicserver.Container.Queue.{
  Heap, Queue, load, new_item, set_prev, set_next, set_value, delete_item,
}
use magicserver.Container.Queue.Sequence.{Operation, enqueue, dequeue}

-- Where a thread is in push or pull, with the local variables that it still needs: the item to be
-- pushed and `pOldFirst`; `pLastItem` and `pResult`.
pub data Point : Type 0 where
  push_lock push_read : (item : Ptr) → Point
  push_new : (item old : Ptr) → Point
  push_prev : (old : Ptr) → Point
  push_last push_unlock pull_lock pull_read : Point
  pull_get : (last : Ptr) → Point
  pull_prev pull_next pull_set pull_delete : (last result : Ptr) → Point
  pull_unlock : (result : Ptr) → Point

abbrev pub Store : Type 0
Store = Queue × Heap

-- A push returns nothing.
abbrev pub Result : Type 0
Result = Option Ptr

abbrev lock_queue : Queue → Queue
lock_queue q = record q { thread_lock = lock q.thread_lock }

abbrev unlock_queue : Queue → Queue
unlock_queue q = record q { thread_lock = unlock q.thread_lock }

-- One step of push or pull.
pub queue_step : Point → Store → Outcome (Place Point Result × Store)
unfolding new_item set_prev set_next set_value delete_item lock unlock
queue_step (push_lock v) (q, h) = ok (more (push_read v), (lock_queue q, h))
queue_step (push_read v) (q, h) = ok (more (push_new v q.first), (q, h))
queue_step (push_new v old) (q, h) =
    let (p, h₁) = new_item v old h in ok (more (push_prev old), (record q { first = p }, h₁))
queue_step (push_prev old) (q, h) = do
  h₁ ← if old == null then ok h else set_prev old q.first h
  ok (more push_last, (q, h₁))
queue_step push_last (q, h) =
    ok (more push_unlock, (record q { last = if q.last == null then q.first else q.last }, h))
queue_step push_unlock (q, h) = ok (returned none, (unlock_queue q, h))
queue_step pull_lock (q, h) = ok (more pull_read, (lock_queue q, h))
queue_step pull_read (q, h) =
    ok (more (if q.last == null then pull_unlock null else pull_get q.last), (q, h))
queue_step (pull_get last) (q, h) = do i ← load last h; ok (more (pull_prev last i.value), (q, h))
queue_step (pull_prev last result) (q, h) = do
  i ← load last h
  if i.prev == null
      then ok (more (pull_set last result), (record q { first = null; last = null }, h))
      else ok (more (pull_next last result), (record q { last = i.prev }, h))
queue_step (pull_next last result) (q, h) = do
  h₁ ← set_next q.last null h
  ok (more (pull_set last result), (q, h₁))
queue_step (pull_set last result) (q, h) = do
  h₁ ← set_value last null h
  ok (more (pull_delete last result), (q, h₁))
queue_step (pull_delete last result) (q, h) = do
  h₁ ← delete_item 2 last h
  ok (more (pull_unlock result), (q, h₁))
queue_step (pull_unlock result) (q, h) = ok (returned (some result), (unlock_queue q, h))

-- The queue's operations, for the threads that share it.
abbrev pub queue_code : Code Store Operation Point Result
queue_code = record {
  start = λ o. elim o [ enqueue v ↦ push_lock v | dequeue ↦ pull_lock ];
  next = queue_step;
  depth = λ s. s.0.thread_lock.held;
}
