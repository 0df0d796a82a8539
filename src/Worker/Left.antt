-- ===== src/Worker/Left.antt =====
-- Requests that a shutdown leaves in the queue.
use magicserver.Prelude.{
  ℕ, zero, suc, ◌≡◌, refl, sym, ap, subst, ◌∙◌, Option, none, some, List, [], ◌∷◌, ◌++◌, map,
  get_elem?, Option-cases, Bool-cases, inl, inr,
}
use magicserver.Worker.{
  Phase, testing, entering, asleep, pulling, handling, finished, Main, outside, signalling,
  broadcasting, joining, Pool, new_pool, Action, submit, signal_one, request_shutdown,
  broadcast_all, join_next, work, wake, set_phase, rouse, none_asleep, submit_step, wake_step,
  signal_step, shutdown_step, broadcast_step, join_worker, join_step, work_step, step, run,
}
use magicserver.Worker.Account.{some_injective}

-- Both workers have ended, without a request.
pub record Ended (p : Pool) : Type 0 where
  pub workers : p.workers ≡ finished ∷ finished ∷ []
  pub taken : p.taken ≡ []
  pub handled : p.handled ≡ []

abbrev AllEnded : Option Pool → Type 0
AllEnded q = (p' : Pool) → q ≡ some p' → Ended p'

still : {p : Pool} → Ended p → AllEnded (some p)
still is p' e = subst Ended (some_injective e) is

blocked : AllEnded none
blocked p' e = cc

same_workers :
    {p q : Pool}
    → q.workers ≡ p.workers
    → q.taken ≡ p.taken
    → q.handled ≡ p.handled
    → Ended p
    → Ended q
same_workers a b c is = record {
  workers = a ∙ is.workers;
  taken = b ∙ is.taken;
  handled = c ∙ is.handled;
}

-- What both workers' positions hold.
phase-Ended : (i : ℕ) (w : Phase) → get_elem? (finished ∷ finished ∷ []) i ≡ some w → w ≡ finished
phase-Ended zero w e = cc
phase-Ended (suc zero) w e = cc
phase-Ended (suc (suc i)) w e = cc

wake-Ended :
    (p : Pool) (i : ℕ) (w : Option Phase)
    → get_elem? (finished ∷ finished ∷ []) i ≡ w
    → AllEnded (wake_step i w p)
unfolding wake_step
wake-Ended p i none e = blocked
wake-Ended p i (some asleep) e = absurd (clash (phase-Ended i asleep e))
  where
    clash : asleep ≡ finished → ⊥
    clash q = cc
wake-Ended p i (some testing) e = blocked
wake-Ended p i (some entering) e = blocked
wake-Ended p i (some pulling) e = blocked
wake-Ended p i (some (handling q)) e = blocked
wake-Ended p i (some finished) e = blocked

work-Ended : (p : Pool) (i : ℕ) → work_step i (get_elem? (finished ∷ finished ∷ []) i) p ≡ none
unfolding work_step
work-Ended p zero = refl
work-Ended p (suc zero) = refl
work-Ended p (suc (suc i)) = refl

signal-Ended : (i : Option ℕ) (m : Main) {p : Pool} → Ended p → AllEnded (signal_step i m p)
unfolding signal_step
signal-Ended none signalling {p} is = elim (Bool-cases (none_asleep p.workers)) [
  | inl e ↦ rw e (still (same_workers refl refl refl is))
  | inr e ↦ rw e blocked
]
signal-Ended (some i) signalling is = rw is.workers (wake-Ended _ i _ refl)
signal-Ended none outside is = blocked
signal-Ended none (broadcasting r) is = blocked
signal-Ended none (joining j r) is = blocked
signal-Ended (some i) outside is = blocked
signal-Ended (some i) (broadcasting r) is = blocked
signal-Ended (some i) (joining j r) is = blocked

submit-Ended : (r : ℕ) (m : Main) {p : Pool} → Ended p → AllEnded (submit_step r m p)
unfolding submit_step
submit-Ended r outside is = still (same_workers refl refl refl is)
submit-Ended r signalling is = blocked
submit-Ended r (broadcasting q) is = blocked
submit-Ended r (joining i q) is = blocked

shutdown-Ended : (r : Option ℕ) (m : Main) {p : Pool} → Ended p → AllEnded (shutdown_step r m p)
unfolding shutdown_step
shutdown-Ended r outside {p} is = elim (Bool-cases p.is_shutdown) [
  | inl e ↦ rw e (still (same_workers refl refl refl is))
  | inr e ↦ rw e (still (same_workers refl refl refl is))
]
shutdown-Ended r signalling is = blocked
shutdown-Ended r (broadcasting q) is = blocked
shutdown-Ended r (joining j q) is = blocked

broadcast-Ended : (m : Main) {p : Pool} → Ended p → AllEnded (broadcast_step m p)
unfolding broadcast_step rouse
broadcast-Ended (broadcasting r) is =
    still (record { workers = ap (map rouse) is.workers; taken = is.taken; handled = is.handled })
broadcast-Ended outside is = blocked
broadcast-Ended signalling is = blocked
broadcast-Ended (joining j q) is = blocked

join_worker-Ended :
    (i : ℕ) (r : Option ℕ) (w : Option Phase) {p : Pool} → Ended p → AllEnded (join_worker i r w p)
unfolding join_worker
join_worker-Ended i r none is = still (same_workers refl refl refl is)
join_worker-Ended i r (some finished) is = still (same_workers refl refl refl is)
join_worker-Ended i r (some testing) is = blocked
join_worker-Ended i r (some entering) is = blocked
join_worker-Ended i r (some asleep) is = blocked
join_worker-Ended i r (some pulling) is = blocked
join_worker-Ended i r (some (handling q)) is = blocked

join-Ended : (m : Main) {p : Pool} → Ended p → AllEnded (join_step m p)
unfolding join_step
join-Ended (joining i r) {p} is = join_worker-Ended i r (get_elem? p.workers i) is
join-Ended outside is = blocked
join-Ended signalling is = blocked
join-Ended (broadcasting q) is = blocked

step-Ended : (a : Action) {p : Pool} → Ended p → AllEnded (step a p)
unfolding step
step-Ended (submit r) {p} is = submit-Ended r p.main is
step-Ended (signal_one i) {p} is = signal-Ended i p.main is
step-Ended (request_shutdown r) {p} is = shutdown-Ended r p.main is
step-Ended broadcast_all {p} is = broadcast-Ended p.main is
step-Ended join_next {p} is = join-Ended p.main is
step-Ended (work i) {p} is =
    rw (is.workers, work-Ended (record p { workers = finished ∷ finished ∷ [] }) i) blocked
step-Ended (wake i) {p} is = rw is.workers (wake-Ended _ i _ refl)

run-Ended : (actions : List Action) {p : Pool} → Ended p → AllEnded (run actions p)
unfolding run
run-Ended [] is = still is
run-Ended (a ∷ rest) {p} is = elim (Option-cases (step a p)) [
  | inl e ↦ rw (e, run) blocked
  | inr (q, e) ↦ rw (e, run) (run-Ended rest (step-Ended a is q e))
]

-- A request comes, and no worker sleeps yet; a shutdown follows before the workers test the flag.
abbrev pub early_shutdown : ℕ → Option ℕ → List Action
early_shutdown r f =
    submit r
    ∷ signal_one none
    ∷ request_shutdown f
    ∷ broadcast_all
    ∷ work 0
    ∷ work 1
    ∷ join_next
    ∷ join_next
    ∷ []

shut :
    (r : ℕ) (f : Option ℕ) (actions : List Action)
    → (q : Pool) × (run (early_shutdown r f ++ actions) (new_pool 2) ≡ run actions q) × Ended q
unfolding run step new_pool submit_step signal_step none_asleep shutdown_step broadcast_step rouse
    work_step set_phase join_step join_worker
shut r f actions = (_, refl, record { workers = refl; taken = refl; handled = refl })

-- A shutdown may leave requests unhandled. In a pool of two workers, where a request comes before the
-- workers wait, and a shutdown before they test the flag, the workers have ended when they have been
-- joined, and whatever steps follow, they have never pulled or handled a request.
pub early_shutdown_lem :
    (r : ℕ) (f : Option ℕ) (actions : List Action) (p : Pool)
    → run (early_shutdown r f ++ actions) (new_pool 2) ≡ some p
    → (p.workers ≡ finished ∷ finished ∷ []) × (p.taken ≡ []) × (p.handled ≡ [])
early_shutdown_lem r f actions p e =
    let (q, reached, ended) = shut r f actions in
    let is = run-Ended actions ended p (sym reached ∙ e) in (is.workers, is.taken, is.handled)
