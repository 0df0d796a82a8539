-- ===== src/Container/Queue/Sequence.antt =====
-- Sequences of push and pull on a queue, against the same sequence on a list.
use magicserver.Prelude.{
  ◌≡◌, refl, ap, ◌∙◌, List, [], ◌∷◌, ◌++◌, map, map-append, Outcome, ok, ◌>>=◌, Returns, returns,
  Returns-bind, Returns-mono,
}
use magicserver.Memory.{Ptr, null}
use magicserver.Container.Queue.{Heap, Queue, push, pull}
use magicserver.Container.Queue.Chain.{Cells, IsQueue}
use magicserver.Container.Queue.Push.{push-IsQueue}
use magicserver.Container.Queue.Pull.{pull-IsQueue, pull-empty}

-- The two operations of a queue's clients.
pub data Operation : Type 0 where
  enqueue : Ptr → Operation
  dequeue : Operation

-- The calls, one after the other: what each pull returned, and the queue at the end.
pub perform : List Operation → Queue → Heap → Outcome (List Ptr × Queue × Heap)
perform [] q h = ok ([], q, h)
perform (enqueue v ∷ rest) q h = do (q₁, h₁) ← push v q h; perform rest q₁ h₁
perform (dequeue ∷ rest) q h = do
  (v, q₁, h₁) ← pull 2 q h
  (vs, q₂, h₂) ← perform rest q₁ h₁
  ok (v ∷ vs, q₂, h₂)

-- First in, first out: what the pulls give, NULL where there is nothing, and what stays.
unfoldable pub fifo : List Operation → List Ptr → List Ptr × List Ptr
fifo [] vs = ([], vs)
fifo (enqueue v ∷ rest) vs = fifo rest (vs ++ v ∷ [])
fifo (dequeue ∷ rest) [] = let (rs, left) = fifo rest [] in (null ∷ rs, left)
fifo (dequeue ∷ rest) (v ∷ vs) = let (rs, left) = fifo rest vs in (v ∷ rs, left)

abbrev pub values : Cells → List Ptr
values xs = map (λ (c : Ptr × Ptr). c.1) xs

-- What `perform` leaves, given what the list gives.
pub record Agrees (h : Heap) (q : Queue) (spec : List Ptr × List Ptr) (r : List Ptr × Queue × Heap)
    : Type 0 where
  pub pulled : r.0 ≡ spec.0
  pub cells : Cells
  pub stands : IsQueue r.2 r.1 cells
  pub holds : values cells ≡ spec.1
  pub same_lock : r.1.thread_lock ≡ q.thread_lock
  pub none_destroyed : r.2.deleted ≡ h.deleted

-- A sequence of pushes and pulls on a queue never fails. The pulls return what they return on a list
-- with the same pointers, where push appends and pull takes the first, or gives NULL if there is
-- none; the queue then holds what the list holds; no object is destroyed, and the lock is as before.
pub perform-fifo :
    {h : Heap} {q : Queue} {xs : Cells} (operations : List Operation)
    → IsQueue h q xs
    → Returns (Agrees h q (fifo operations (values xs))) (perform operations q h)
unfolding perform fifo
perform-fifo {xs} [] is = returns (record {
  pulled = refl;
  cells = xs;
  stands = is;
  holds = refl;
  same_lock = refl;
  none_destroyed = refl;
})
perform-fifo {xs} (enqueue v ∷ rest) is = Returns-bind (push-IsQueue v is) λ (q₁, h₁) (is₁, l, d).
    Returns-mono (perform-fifo rest is₁) λ r a. record {
      pulled = a.pulled ∙ ap (λ vs. (fifo rest vs).0) (map-append _ xs _);
      cells = a.cells;
      stands = a.stands;
      holds = a.holds ∙ ap (λ vs. (fifo rest vs).1) (map-append _ xs _);
      same_lock = a.same_lock ∙ l;
      none_destroyed = a.none_destroyed ∙ d;
    }
perform-fifo {xs = []} (dequeue ∷ rest) is = rw (pull-empty 2 is) (
    Returns-bind (perform-fifo rest is) λ r a. returns (record {
      pulled = ap (λ vs. null ∷ vs) a.pulled;
      cells = a.cells;
      stands = a.stands;
      holds = a.holds;
      same_lock = a.same_lock;
      none_destroyed = a.none_destroyed;
    }))
perform-fifo {xs = c ∷ xs} (dequeue ∷ rest) is =
    Returns-bind (pull-IsQueue 0 is) λ (v, q₁, h₁) (e, is₁, _, l, d).
      Returns-bind (perform-fifo rest is₁) λ r a. returns (record {
        pulled = rw e (ap (λ vs. c.1 ∷ vs) a.pulled);
        cells = a.cells;
        stands = a.stands;
        holds = a.holds;
        same_lock = a.same_lock ∙ l;
        none_destroyed = a.none_destroyed ∙ d;
      })
