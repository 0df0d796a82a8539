-- ===== src/Container/Queue/Steps/Examples.antt =====
-- Two threads at one queue.
use magicserver.Prelude.{ℕ, map, ◌≡◌, refl, none, some, List, [], ◌∷◌, ◌++◌, Returns, returns}
use magicserver.Lock.Threads.{
  idle, Action, call, proceed, at_rest, run, act, advance, begin, stepped,
}
use magicserver.Lock.Threads.Atomic.{Free, Settled}
use magicserver.Container.Queue.{Heap, new_queue}
use magicserver.Container.Queue.Chain.{IsQueue}
use magicserver.Container.Queue.Sequence.{Operation, enqueue, dequeue}
use magicserver.Container.Queue.Steps.{queue_code, queue_step}
use magicserver.Container.Queue.Steps.Concurrent.{Follows, queue_threads, queue_progress}

abbrev empty_heap : Heap
empty_heap = record { last_address = 0; item = λ p. none; deleted = [] }

-- Nothing in it.
empty-IsQueue : IsQueue empty_heap new_queue []
empty-IsQueue = record { linked = (refl, refl); sane = λ p h. refl }

-- Thread 2 calls pull while thread 1 is inside push, and has to wait.
abbrev waiting : List (Action Operation)
waiting = call 1 (enqueue 90) ∷ proceed 1 ∷ proceed 1 ∷ call 2 dequeue ∷ proceed 2 ∷ []

-- Thread 1 ends its push; thread 2 then gets the lock.
abbrev actions : List (Action Operation)
actions =
    waiting
    ++ proceed 1 ∷ proceed 1 ∷ proceed 2 ∷ proceed 1 ∷ proceed 1 ∷ proceed 2 ∷ proceed 2 ∷ []

queue_threads_example :
    Returns
      (Settled queue_code (Follows [] []))
      (run queue_code actions (at_rest (new_queue, empty_heap)))
queue_threads_example = queue_threads actions empty-IsQueue refl

-- Thread 2 waits at the lock of pull.
queue_progress_example :
    Returns
      (λ t.
        (who : List ℕ) × Returns
          (λ u. Free queue_code (Follows [] []) u × (u.status 2 ≡ idle))
          (run queue_code (map proceed who) t))
      (run queue_code waiting (at_rest (new_queue, empty_heap)))
queue_progress_example = queue_progress waiting 2 empty-IsQueue refl

while_waiting :
    Returns
      (λ t. (t.owner ≡ some 1) × (t.calls ≡ (1, enqueue 90) ∷ []) × (t.results ≡ []))
      (run queue_code waiting (at_rest (new_queue, empty_heap)))
unfolding run act advance begin stepped queue_step
while_waiting = returns (refl, refl, refl)

after_waiting :
    Returns
      (λ t.
        (t.owner ≡ some 2)
        × (t.calls ≡ (1, enqueue 90) ∷ (2, dequeue) ∷ [])
        × (t.results ≡ (1, none) ∷ []))
      (run queue_code actions (at_rest (new_queue, empty_heap)))
unfolding run act advance begin stepped queue_step
after_waiting = returns (refl, refl, refl)
