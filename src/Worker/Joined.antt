-- ===== src/Worker/Joined.antt =====
-- Which workers have ended when a shutdown has returned, and what the destructor of the pool finds.
use magicserver.Prelude.{
  ℕ, suc, ◌≤◌, ◌≡◌, refl, sym, subst, lt_cases, inl, inr, true, Option, none, some, List, [], ◌∷◌,
  get_elem?, take, arith, Option-cases, ok,
}
use magicserver.Worker.{
  Phase, testing, entering, asleep, pulling, handling, finished, Main, outside, signalling,
  broadcasting, joining, Pool, new_pool, Action, submit, signal_one, request_shutdown,
  broadcast_all, join_next, work, wake, pull_step, join_worker, join_step, work_step, step, run,
  delete_workers,
}
use magicserver.Worker.Progress.{
  AtEnd, Tail, Progress, IsJoining, Keeps, keep, keep_none, set-Keeps, submit-Keeps, wake-Keeps,
  signal-Keeps, shutdown-Keeps, broadcast-Keeps, none_behind,
}

-- A join ends when the worker has; behind the last worker, shutdown returns.
join_worker-Keeps :
    (i : ℕ) (r : Option ℕ) (w : Option Phase) (p : Pool)
    → get_elem? p.workers i ≡ w
    → Progress (joining i r) p.is_shutdown p.workers
    → Keeps (join_worker i r w p)
unfolding join_worker
join_worker-Keeps i r none p e (f, low, upto) = keep _ λ g j low'. elim (lt_cases j i) [
  | inl h ↦ upto j low' h
  | inr h ↦ none_behind p.workers i j e h
]
join_worker-Keeps i r (some finished) p e (f, low, upto) = keep _ (
  f,
  omega arith,
  λ j low' high. elim (lt_cases j i) [
    | inl h ↦ upto j low' h
    | inr h ↦
        subst (λ n. AtEnd (get_elem? p.workers n)) {x = i} (omega arith) (subst AtEnd (sym e) tt)
  ],
)
join_worker-Keeps i r (some testing) p e is = keep_none
join_worker-Keeps i r (some entering) p e is = keep_none
join_worker-Keeps i r (some asleep) p e is = keep_none
join_worker-Keeps i r (some pulling) p e is = keep_none
join_worker-Keeps i r (some (handling q)) p e is = keep_none

join-Keeps : (m : Main) (p : Pool) → Progress m p.is_shutdown p.workers → Keeps (join_step m p)
unfolding join_step
join-Keeps (joining i r) p is = join_worker-Keeps i r (get_elem? p.workers i) p refl is
join-Keeps outside p is = keep_none
join-Keeps signalling p is = keep_none
join-Keeps (broadcasting q) p is = keep_none

pull-Keeps :
    (i : ℕ) (queue : List ℕ) (p : Pool)
    → get_elem? p.workers i ≡ some pulling
    → IsJoining p
    → Keeps (some (pull_step queue i p))
unfolding pull_step
pull-Keeps i [] p e is = set-Keeps p _ i pulling testing e (λ n. n) refl refl refl is
pull-Keeps i (r ∷ rest) p e is = set-Keeps p _ i pulling (handling r) e (λ n. n) refl refl refl is

work-Keeps :
    (i : ℕ) (w : Option Phase) (p : Pool)
    → get_elem? p.workers i ≡ w
    → IsJoining p
    → Keeps (work_step i w p)
unfolding work_step
work-Keeps i none p e is = keep_none
work-Keeps i (some testing) p e is = set-Keeps p _ i testing _ e (λ n. n) refl refl refl is
work-Keeps i (some entering) p e is = set-Keeps p _ i entering _ e (λ n. n) refl refl refl is
work-Keeps i (some asleep) p e is = keep_none
work-Keeps i (some pulling) p e is = pull-Keeps i p.queue p e is
work-Keeps i (some (handling q)) p e is =
    set-Keeps p _ i (handling q) _ e (λ n. n) refl refl refl is
work-Keeps i (some finished) p e is = keep_none

step-Keeps : (a : Action) (p : Pool) → IsJoining p → Keeps (step a p)
unfolding step
step-Keeps (submit r) p is = submit-Keeps r p.main p is
step-Keeps (signal_one i) p is = signal-Keeps i p.main p is
step-Keeps (request_shutdown r) p is = shutdown-Keeps r p.main p refl is
step-Keeps broadcast_all p is = broadcast-Keeps p.main p is
step-Keeps join_next p is = join-Keeps p.main p is
step-Keeps (work i) p is = work-Keeps i (get_elem? p.workers i) p refl is
step-Keeps (wake i) p is = wake-Keeps i (get_elem? p.workers i) p refl is

run-Keeps : (actions : List Action) (p : Pool) → IsJoining p → Keeps (run actions p)
unfolding run
run-Keeps [] p is = keep p is
run-Keeps (a ∷ rest) p is = elim (Option-cases (step a p)) [
  | inl e ↦ rw (e, run) keep_none
  | inr (q, e) ↦ rw (e, run) (run-Keeps rest q (step-Keeps a p is q e))
]

new_pool-IsJoining : (size : ℕ) → IsJoining (new_pool size)
unfolding new_pool
new_pool-IsJoining size = λ e. cc

joined :
    (size : ℕ) (actions : List Action) (p : Pool)
    → run actions (new_pool size) ≡ some p
    → p.main ≡ outside
    → p.is_shutdown ≡ true
    → Tail p.workers
joined size actions p e main flag =
    subst (λ m. Progress m p.is_shutdown p.workers) main
      (run-Keeps actions (new_pool size) (new_pool-IsJoining size) p e) flag

ended : (w : Phase) → AtEnd (some w) → w ≡ finished
ended finished h = refl
ended testing h = elim h [ ]
ended entering h = elim h [ ]
ended asleep h = elim h [ ]
ended pulling h = elim h [ ]
ended (handling r) h = elim h [ ]

delete_ended : (ws : List Phase) → ((j : ℕ) → AtEnd (get_elem? ws j)) → delete_workers ws ≡ ok tt
unfolding delete_workers
delete_ended [] h = refl
delete_ended (w ∷ ws) h = rw (ended w (h 0)) (delete_ended ws (λ j. h (suc j)))

delete_first : (ws : List Phase) → Tail ws → delete_workers ws ≡ delete_workers (take 1 ws)
unfolding delete_workers
delete_first [] h = refl
delete_first (finished ∷ ws) h = delete_ended ws (λ j. h (suc j) (omega arith))
delete_first (testing ∷ ws) h = refl
delete_first (entering ∷ ws) h = refl
delete_first (asleep ∷ ws) h = refl
delete_first (pulling ∷ ws) h = refl
delete_first (handling r ∷ ws) h = refl

-- After any sequence of steps of a new pool, however the threads interleave: whenever a shutdown
-- was requested and the listener's thread is outside the pool again, every worker but the one at
-- position 0 has ended, and the deletion of the workers in the pool's destructor fails only if that
-- one has not ended.
pub delete_workers_first :
    (size : ℕ) (actions : List Action) (p : Pool)
    → run actions (new_pool size) ≡ some p
    → p.main ≡ outside
    → p.is_shutdown ≡ true
    → ((j : ℕ) (w : Phase) → 1 ≤ j → get_elem? p.workers j ≡ some w → w ≡ finished)
      × (delete_workers p.workers ≡ delete_workers (take 1 p.workers))
delete_workers_first size actions p e main flag =
    let tail = joined size actions p e main flag in
    (λ j w low at. ended w (subst AtEnd at (tail j low)), delete_first p.workers tail)
