-- ===== src/Container/Queue/Examples.antt =====
-- The theorems on queues at a queue of two requests.
use magicserver.Prelude.{◌≡◌, refl, some, none, [], ◌∷◌, arith, ◌==◌, if◌then◌else◌, Returns}
use magicserver.Lock.{new_lock}
use magicserver.Memory.{Ptr, null}
use magicserver.Container.Queue.{Heap, Queue, push, pull, is_deleted, destroy}
use magicserver.Container.Queue.Chain.{has, IsQueue, one, more}
use magicserver.Container.Queue.Push.{Pushed, push-IsQueue}
use magicserver.Container.Queue.Pull.{Pulled, pull-IsQueue}
use magicserver.Container.Queue.Sequence.{enqueue, dequeue, perform, fifo, Agrees, perform-fifo}
use magicserver.Container.Queue.Destroy.{destroy_lem}

-- Item 1 holds the older request 70, item 2 the newer request 80.
abbrev two_items : Heap
two_items = record {
  last_address = 2;
  item = λ p.
      if p == 1
      then some (record { value = 70; prev = 2; next = 0 })
      else if p == 2
      then some (record { value = 80; prev = 0; next = 1 })
      else none;
  deleted = [];
}

abbrev queue : Queue
queue = record { first = 2; last = 1; thread_lock = new_lock }

queue-IsQueue : IsQueue two_items queue ((1, 70) ∷ (2, 80) ∷ [])
queue-IsQueue = record {
  linked =
      more (record { ne_null = omega arith; holds = refl }) refl
        (one (record { ne_null = omega arith; holds = refl }) refl);
  sane = λ p h. ground arith;
}

push-IsQueue_example :
    Returns (Pushed two_items queue ((1, 70) ∷ (2, 80) ∷ (3, 90) ∷ [])) (push 90 queue two_items)
push-IsQueue_example = push-IsQueue 90 queue-IsQueue

pull-IsQueue_example :
    Returns (Pulled two_items queue (1, 70) ((2, 80) ∷ [])) (pull 2 queue two_items)
pull-IsQueue_example = pull-IsQueue 0 queue-IsQueue

five_operations :
    Returns
      (Agrees two_items queue (70 ∷ 80 ∷ 90 ∷ null ∷ [], []))
      (perform (dequeue ∷ enqueue 90 ∷ dequeue ∷ dequeue ∷ dequeue ∷ []) queue two_items)
unfolding fifo
five_operations =
    perform-fifo (dequeue ∷ enqueue 90 ∷ dequeue ∷ dequeue ∷ dequeue ∷ []) queue-IsQueue

destroy_lem_example :
    Returns
      (λ (q', g).
        (q' ≡ queue)
        × (g.deleted ≡ 80 ∷ 70 ∷ [])
        × ((a : Ptr)
            → g.item a ≡ (if has a ((1, 70) ∷ (2, 80) ∷ []) then none else two_items.item a)))
      (destroy 3 queue two_items)
unfolding is_deleted
destroy_lem_example = destroy_lem 3 queue-IsQueue (refl, (refl, tt)) (omega arith)
