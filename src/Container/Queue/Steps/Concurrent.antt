-- ===== src/Container/Queue/Steps/Concurrent.antt =====
-- Threads that push to and pull from one queue, their steps in any order, against a list.
use magicserver.Prelude.{
  map, Returns-mono, ℕ, ◌≡◌, refl, sym, ap, ◌∙◌, none, some, List, [], ◌∷◌, ◌++◌, map-append,
  Returns, Returns-ok, inl,
}
use magicserver.Lock.Threads.{Action, proceed, idle, at_rest, run}
use magicserver.Lock.Threads.Atomic.{Free, Alone, Settled, Total, run-Settled}
use magicserver.Lock.Threads.Progress.{run-Done}
use magicserver.Memory.{Ptr, null}
use magicserver.Container.Queue.{Heap, Queue}
use magicserver.Container.Queue.Chain.{Cells, IsQueue}
use magicserver.Container.Queue.Push.{push-IsQueue}
use magicserver.Container.Queue.Pull.{pull-IsQueue, pull-empty}
use magicserver.Container.Queue.Sequence.{Operation, enqueue, dequeue, values}
use magicserver.Container.Queue.Steps.{Store, Result, pull_lock, queue_code}
use magicserver.Container.Queue.Steps.Alone.{push-Alone, pull-Alone}

-- A list in place of the queue: what each call returns to its thread, if the calls come one after
-- the other, and what stays.
unfoldable pub answers : List (ℕ × Operation) → List Ptr → List (ℕ × Result) × List Ptr
answers [] vs = ([], vs)
answers ((i, enqueue v) ∷ rest) vs =
    let (rs, left) = answers rest (vs ++ v ∷ []) in ((i, none) ∷ rs, left)
answers ((i, dequeue) ∷ rest) [] = let (rs, left) = answers rest [] in ((i, some null) ∷ rs, left)
answers ((i, dequeue) ∷ rest) (v ∷ vs) =
    let (rs, left) = answers rest vs in ((i, some v) ∷ rs, left)

-- The calls and their results are those of the list `vs`, the queue holds what the list then holds,
-- its lock is free, and the objects in `gone` are those that were destroyed.
pub record Follows (vs : List Ptr) (gone : List Ptr) (cs : List (ℕ × Operation))
    (rs : List (ℕ × Result)) (s : Store) : Type 0 where
  pub cells : Cells
  pub stands : IsQueue s.1 s.0 cells
  pub returned_all : rs ≡ (answers cs vs).0
  pub holds : values cells ≡ (answers cs vs).1
  pub free : s.0.thread_lock.held ≡ 0
  pub none_destroyed : s.1.deleted ≡ gone

-- One call more.
answers-append :
    (cs : List (ℕ × Operation)) (c : ℕ × Operation) (vs : List Ptr)
    → answers (cs ++ c ∷ []) vs ≡ (
        let (rs, left) = answers cs vs in
        let (r, left₁) = answers (c ∷ []) left in (rs ++ r, left₁))
unfolding answers
answers-append [] c vs = refl
answers-append ((i, enqueue v) ∷ rest) c vs = rw (answers-append rest c (vs ++ v ∷ [])) refl
answers-append ((i, dequeue) ∷ rest) c [] = rw (answers-append rest c []) refl
answers-append ((i, dequeue) ∷ rest) c (v ∷ vs) = rw (answers-append rest c vs) refl

answers-more :
    {i : ℕ} {rs : List (ℕ × Result)} {left : List Ptr} (o : Operation) (cs : List (ℕ × Operation))
    (vs : List Ptr) (r : Result)
    → rs ≡ (answers cs vs).0
    → answers ((i, o) ∷ []) (answers cs vs).1 ≡ ((i, r) ∷ [], left)
    → (rs ++ (i, r) ∷ [] ≡ (answers (cs ++ (i, o) ∷ []) vs).0)
      × (left ≡ (answers (cs ++ (i, o) ∷ []) vs).1)
answers-more {i} o cs vs r e a = rw (answers-append cs (i, o) vs, a, e) (refl, refl)

-- A call on the queue, given what it does to the list of its items.
another_call :
    {vs gone : List Ptr} {cs : List (ℕ × Operation)} {rs : List (ℕ × Result)} {s s' : Store} {i : ℕ}
    (o : Operation) (r : Result) (xs : Cells)
    → Follows vs gone cs rs s
    → IsQueue s'.1 s'.0 xs
    → answers ((i, o) ∷ []) (answers cs vs).1 ≡ ((i, r) ∷ [], values xs)
    → s'.0.thread_lock ≡ s.0.thread_lock
    → s'.1.deleted ≡ s.1.deleted
    → Follows vs gone (cs ++ (i, o) ∷ []) (rs ++ (i, r) ∷ []) s'
another_call {vs} {cs} o r xs f is a l d =
    let (e, e₁) = answers-more o cs vs r f.returned_all a in
    record {
      cells = xs;
      stands = is;
      returned_all = e;
      holds = e₁;
      free = ap (λ m. m.held) l ∙ f.free;
      none_destroyed = d ∙ f.none_destroyed;
    }

queue-Total : (vs gone : List Ptr) → Total queue_code (Follows vs gone)
unfolding answers
queue-Total vs gone cs rs (q, h) i (enqueue v) f =
    let (s', e, (is, l, d)) = Returns-ok (push-IsQueue v f.stands) in
    (
      none,
      s',
      push-Alone v f.free e,
      another_call (enqueue v) none _ f is
          (ap (λ ws. ((i, none) ∷ [], ws))
            (ap (λ ws. ws ++ v ∷ []) (sym f.holds) ∙ sym (map-append _ f.cells _)))
          l d,
    )
queue-Total vs gone cs rs (q, h) i dequeue f = pulled f.cells f.stands f.holds
  where
    pulled :
        (xs : Cells)
        → IsQueue h q xs
        → values xs ≡ (answers cs vs).1
        → (r : Result) × (s' : Store) × Alone queue_code pull_lock (q, h) r s'
          × Follows vs gone (cs ++ (i, dequeue) ∷ []) (rs ++ (i, r) ∷ []) s'
    pulled [] is holds = (
      some null,
      (q, h),
      pull-Alone f.free (pull-empty 2 is),
      another_call dequeue (some null) [] f is (rw⁻¹ holds refl) refl refl,
    )
    pulled (c ∷ xs) is holds =
        let ((v, q', h'), e, (same, is', _, l, d)) = Returns-ok (pull-IsQueue 0 is) in
        (
          some v,
          (q', h'),
          pull-Alone f.free e,
          another_call dequeue (some v) xs f is' (rw⁻¹ holds (rw same refl)) l d,
        )

-- Any number of threads push to and pull from one queue that stands for a list of items and whose
-- lock is free, and their steps come in any order: no step fails. Either no thread has the lock; then
-- all calls that took it have returned to their threads what they return on a list of the same
-- pointers, one after the other in the order in which they took the lock, and the queue holds what
-- that list then holds. Or one thread has it, and no other is past the lock; then that thread, if it
-- goes on alone, ends its call in such a state. No object is destroyed.
pub queue_threads :
    {q : Queue} {h : Heap} {xs : Cells} (actions : List (Action Operation))
    → IsQueue h q xs
    → q.thread_lock.held ≡ 0
    → Returns
        (Settled queue_code (Follows (values xs) h.deleted))
        (run queue_code actions (at_rest (q, h)))
unfolding answers
queue_threads {xs} actions is free =
    run-Settled queue_code (Follows (values xs) _) (queue-Total (values xs) _) actions _ (
      inl (record {
        unowned = refl;
        outside = λ j. tt;
        spec = record {
          cells = xs;
          stands = is;
          returned_all = refl;
          holds = refl;
          free = free;
          none_destroyed = refl;
        };
      }))

-- Any number of threads push to and pull from one queue that stands for a list of items and whose
-- lock is free. However their steps came so far, and whatever thread is asked for, the threads have
-- further steps, with no new call, after which no thread has the lock, that thread's call has
-- returned, and all calls that took the lock have returned what they return on a list, as above.
pub queue_progress :
    {q : Queue} {h : Heap} {xs : Cells} (actions : List (Action Operation)) (i : ℕ)
    → IsQueue h q xs
    → q.thread_lock.held ≡ 0
    → Returns
        (λ t.
          (who : List ℕ) × Returns
            (λ u. Free queue_code (Follows (values xs) h.deleted) u × (u.status i ≡ idle))
            (run queue_code (map proceed who) t))
        (run queue_code actions (at_rest (q, h)))
queue_progress {h} {xs} actions i is free =
    Returns-mono (queue_threads actions is free) λ t settled.
      run-Done queue_code (Follows (values xs) h.deleted) (queue-Total (values xs) h.deleted) i t
        settled
