-- ===== src/Worker/Once.antt =====
-- The account of the requests over a sequence of steps.
use magicserver.Prelude.{
  ℕ, ◌+◌, ◌≡◌, refl, sym, ap, ◌∙◌, Option, none, some, List, [], ◌∷◌, ◌++◌, append_assoc, get_elem?,
  arith, inl, inr, Option-cases, Bool-cases,
}
use magicserver.Worker.{
  Phase, testing, entering, asleep, pulling, handling, finished, Pool, new_pool, Action, submit,
  signal_one, request_shutdown, broadcast_all, join_next, work, wake, set_phase, pull_step,
  work_step, step, run,
}
use magicserver.Worker.Account.{
  count, in_hand, count-append, in_hand-set_phase, in_hand-replicate, IsPool, Keeps, keep,
  keep_none, set-IsPool, submit-IsPool, wake-IsPool, signal-IsPool, shutdown-IsPool,
  broadcast-IsPool, join-IsPool,
}

pull-IsPool :
    (i : ℕ) (queue : List ℕ) {p : Pool}
    → p.queue ≡ queue
    → get_elem? p.workers i ≡ some pulling
    → IsPool p
    → IsPool (pull_step queue i p)
unfolding pull_step
pull-IsPool i [] e h is = set-IsPool i pulling testing h (λ r. refl) is
pull-IsPool i (q ∷ rest) {p} e h is = record {
  arrived = is.arrived ∙ ap (λ l. p.taken ++ l) e ∙ sym (append_assoc p.taken (q ∷ []) rest);
  accounted = λ r. omega (
    arith,
    is.accounted r,
    count-append r p.taken (q ∷ []),
    in_hand-set_phase r p.workers i pulling (handling q) h,
  );
}

handled-IsPool :
    (i q : ℕ) {p : Pool}
    → get_elem? p.workers i ≡ some (handling q)
    → IsPool p
    → IsPool (record p { handled = p.handled ++ q ∷ []; workers = set_phase p.workers i pulling })
handled-IsPool i q {p} h is = record {
  arrived = is.arrived;
  accounted = λ r. omega (
    arith,
    is.accounted r,
    count-append r p.handled (q ∷ []),
    in_hand-set_phase r p.workers i (handling q) pulling h,
  );
}

work-IsPool :
    (i : ℕ) (w : Option Phase) {p : Pool}
    → get_elem? p.workers i ≡ w
    → IsPool p
    → Keeps (work_step i w p)
unfolding work_step
work-IsPool i none h is = keep_none
work-IsPool i (some testing) {p} h is = elim (Bool-cases p.is_shutdown) [
  | inl e ↦ keep (set-IsPool i testing _ h (λ r. rw e) is)
  | inr e ↦ keep (set-IsPool i testing _ h (λ r. rw e) is)
]
work-IsPool i (some entering) h is = keep (set-IsPool i entering asleep h (λ r. refl) is)
work-IsPool i (some asleep) h is = keep_none
work-IsPool i (some pulling) {p} h is = keep (pull-IsPool i p.queue refl h is)
work-IsPool i (some (handling q)) h is = keep (handled-IsPool i q h is)
work-IsPool i (some finished) h is = keep_none

step-IsPool : (a : Action) {p : Pool} → IsPool p → Keeps (step a p)
unfolding step
step-IsPool (submit r) {p} is = submit-IsPool r p.main is
step-IsPool (signal_one i) {p} is = signal-IsPool i p.main is
step-IsPool (request_shutdown r) {p} is = shutdown-IsPool r p.main is
step-IsPool broadcast_all {p} is = broadcast-IsPool p.main is
step-IsPool join_next {p} is = join-IsPool p.main is
step-IsPool (work i) {p} is = work-IsPool i (get_elem? p.workers i) refl is
step-IsPool (wake i) {p} is = wake-IsPool i (get_elem? p.workers i) refl is

run-IsPool : (actions : List Action) {p : Pool} → IsPool p → Keeps (run actions p)
unfolding run
run-IsPool [] is = keep is
run-IsPool (a ∷ rest) {p} is = elim (Option-cases (step a p)) [
  | inl e ↦ rw (e, run) keep_none
  | inr (q, e) ↦ rw (e, run) (run-IsPool rest (step-IsPool a is q e))
]

new_pool-IsPool : (size : ℕ) → IsPool (new_pool size)
unfolding new_pool
new_pool-IsPool size = record {
  arrived = refl;
  accounted = λ r. omega (arith, in_hand-replicate r size);
}

-- After any sequence of steps of a new pool, however the threads interleave: the requests that were
-- submitted are those that the workers took, in the order in which they came, and behind them those
-- that are still in the queue; and each request was taken as often as it was handled, and once more
-- for every worker that has it in hand.
pub requests_once :
    (size : ℕ) (actions : List Action) (p : Pool)
    → run actions (new_pool size) ≡ some p
    → (p.submitted ≡ p.taken ++ p.queue)
      × ((r : ℕ) → count r p.taken ≡ count r p.handled + in_hand r p.workers)
requests_once size actions p e =
    let is = run-IsPool actions (new_pool-IsPool size) p e in (is.arrived, is.accounted)
