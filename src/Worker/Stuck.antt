-- ===== src/Worker/Stuck.antt =====
-- A worker that goes to sleep after the broadcast of a shutdown.
use magicserver.Prelude.{
  ℕ, zero, suc, ◌≡◌, ◌≢◌, refl, sym, ap, subst, ◌∙◌, Option, none, some, List, [], ◌∷◌, ◌++◌,
  get_elem?, arith, inl, inr, Option-cases, Bool-cases, ◌==◌,
}
use magicserver.Worker.{
  Phase, testing, entering, asleep, pulling, handling, finished, joining, Pool, new_pool, Action,
  submit, signal_one, request_shutdown, broadcast_all, join_next, work, wake, set_phase, rouse,
  pull_step, submit_step, wake_step, signal_step, shutdown_step, broadcast_step, join_worker,
  join_step, work_step, step, run,
}
use magicserver.Worker.Account.{some_injective}

get_elem?-set_phase :
    (ws : List Phase) (i j : ℕ) (w : Phase)
    → i ≢ j
    → get_elem? (set_phase ws j w) i ≡ get_elem? ws i
unfolding set_phase
get_elem?-set_phase [] i j w ne = refl
get_elem?-set_phase (v ∷ ws) zero zero w ne = absurd (ne refl)
get_elem?-set_phase (v ∷ ws) zero (suc j) w ne = refl
get_elem?-set_phase (v ∷ ws) (suc i) zero w ne = refl
get_elem?-set_phase (v ∷ ws) (suc i) (suc j) w ne =
    get_elem?-set_phase ws i j w (λ e. ne (ap suc e))

-- The listener's thread joins the worker at position `i`, which is asleep.
pub record Hangs (i : ℕ) (r : Option ℕ) (p : Pool) : Type 0 where
  pub at_join : p.main ≡ joining i r
  pub sleeps : get_elem? p.workers i ≡ some asleep

abbrev Stays : ℕ → Option ℕ → Option Pool → Type 0
Stays i r q = (p' : Pool) → q ≡ some p' → Hangs i r p'

stay : {i : ℕ} {r : Option ℕ} {p : Pool} → Hangs i r p → Stays i r (some p)
stay {i} {r} is p' e = subst (Hangs i r) (some_injective e) is

stay_none : {i : ℕ} {r : Option ℕ} → Stays i r none
stay_none p' e = cc

other_worker :
    {i : ℕ} {r : Option ℕ} {p : Pool} (j : ℕ) (w : Phase)
    → i ≢ j
    → Hangs i r p
    → Hangs i r (record p { workers = set_phase p.workers j w })
other_worker {i} {p = p} j w ne is = record {
  at_join = is.at_join;
  sleeps = get_elem?-set_phase p.workers i j w ne ∙ is.sleeps;
}

pull-Hangs :
    {i : ℕ} {r : Option ℕ} {p : Pool} (j : ℕ) (queue : List ℕ)
    → i ≢ j
    → Hangs i r p
    → Hangs i r (pull_step queue j p)
unfolding pull_step
pull-Hangs j [] ne is = other_worker j testing ne is
pull-Hangs {i} {p = p} j (q ∷ rest) ne is = record {
  at_join = is.at_join;
  sleeps = get_elem?-set_phase p.workers i j (handling q) ne ∙ is.sleeps;
}

work-Hangs :
    {i : ℕ} {r : Option ℕ} {p : Pool} (j : ℕ) (w : Option Phase)
    → i ≢ j
    → Hangs i r p
    → Stays i r (work_step j w p)
unfolding work_step
work-Hangs j none ne is = stay_none
work-Hangs j (some testing) ne is = stay (other_worker j _ ne is)
work-Hangs j (some entering) ne is = stay (other_worker j asleep ne is)
work-Hangs j (some asleep) ne is = stay_none
work-Hangs {p = p} j (some pulling) ne is = stay (pull-Hangs j p.queue ne is)
work-Hangs {i} {p = p} j (some (handling q)) ne is = stay (record {
  at_join = is.at_join;
  sleeps = get_elem?-set_phase p.workers i j pulling ne ∙ is.sleeps;
})
work-Hangs j (some finished) ne is = stay_none

wake-Hangs :
    {i : ℕ} {r : Option ℕ} {p : Pool} (j : ℕ) (w : Option Phase)
    → i ≢ j
    → Hangs i r p
    → Stays i r (wake_step j w p)
unfolding wake_step
wake-Hangs j none ne is = stay_none
wake-Hangs j (some testing) ne is = stay_none
wake-Hangs j (some entering) ne is = stay_none
wake-Hangs j (some asleep) ne is = stay (other_worker j pulling ne is)
wake-Hangs j (some pulling) ne is = stay_none
wake-Hangs j (some (handling q)) ne is = stay_none
wake-Hangs j (some finished) ne is = stay_none

-- The sleeper itself takes no step.
work-sleeper : (i : ℕ) (p : Pool) → work_step i (some asleep) p ≡ none
unfolding work_step
work-sleeper i p = refl

-- The listener's thread takes none either.
main_waits :
    {i : ℕ} {r : Option ℕ} {p : Pool} (a : Action)
    → Hangs i r p
    → ((j : ℕ) → a ≢ work j)
    → ((j : ℕ) → a ≢ wake j)
    → step a p ≡ none
unfolding step submit_step signal_step shutdown_step broadcast_step join_step join_worker
main_waits (submit q) is no_work no_wake = rw is.at_join
main_waits (signal_one none) is no_work no_wake = rw is.at_join
main_waits (signal_one (some j)) is no_work no_wake = rw is.at_join
main_waits (request_shutdown q) is no_work no_wake = rw is.at_join
main_waits broadcast_all is no_work no_wake = rw is.at_join
main_waits join_next is no_work no_wake = rw (is.at_join, is.sleeps)
main_waits (work j) is no_work no_wake = absurd (no_work j refl)
main_waits (wake j) is no_work no_wake = absurd (no_wake j refl)

-- Sequences in which the worker at position `i` has no wakeup that nothing signalled.
abbrev pub NoWake : ℕ → List Action → Type 0
NoWake i [] = Unit {0}
NoWake i (wake j ∷ rest) = (i ≢ j) × NoWake i rest
NoWake i (a ∷ rest) = NoWake i rest

work-Stays :
    {i : ℕ} {r : Option ℕ} {p : Pool} (j : ℕ)
    → Hangs i r p
    → Stays i r (work_step j (get_elem? p.workers j) p)
work-Stays {i} {r} {p} j is = elim (Bool-cases (i == j)) [
  | inl e ↦
      let same : i ≡ j = ground arith in
      subst (λ k. Stays i r (work_step k (get_elem? p.workers k) p)) same
        (rw (is.sleeps, work-sleeper i p) stay_none)
  | inr e ↦ work-Hangs j (get_elem? p.workers j) (λ q. ground arith) is
]

-- The part of the sequence behind its first action.
rest-NoWake : (i : ℕ) (a : Action) (rest : List Action) → NoWake i (a ∷ rest) → NoWake i rest
rest-NoWake i (submit r) rest h = h
rest-NoWake i (signal_one j) rest h = h
rest-NoWake i (request_shutdown r) rest h = h
rest-NoWake i broadcast_all rest h = h
rest-NoWake i join_next rest h = h
rest-NoWake i (work j) rest h = h
rest-NoWake i (wake j) rest h = h.1

step_work :
    {i : ℕ} {r : Option ℕ} (p : Pool) (j : ℕ)
    → Stays i r (work_step j (get_elem? p.workers j) p)
    → Stays i r (step (work j) p)
unfolding step
step_work p j h = h

step_wake :
    {i : ℕ} {r : Option ℕ} (p : Pool) (j : ℕ)
    → Stays i r (wake_step j (get_elem? p.workers j) p)
    → Stays i r (step (wake j) p)
unfolding step
step_wake p j h = h

step-Stays :
    {i : ℕ} {r : Option ℕ} {p : Pool} (a : Action) (rest : List Action)
    → NoWake i (a ∷ rest)
    → Hangs i r p
    → Stays i r (step a p)
step-Stays (submit q) rest h is = rw (main_waits (submit q) is (λ j e. cc) (λ j e. cc)) stay_none
step-Stays (signal_one q) rest h is =
    rw (main_waits (signal_one q) is (λ j e. cc) (λ j e. cc)) stay_none
step-Stays (request_shutdown q) rest h is =
    rw (main_waits (request_shutdown q) is (λ j e. cc) (λ j e. cc)) stay_none
step-Stays broadcast_all rest h is =
    rw (main_waits broadcast_all is (λ j e. cc) (λ j e. cc)) stay_none
step-Stays join_next rest h is = rw (main_waits join_next is (λ j e. cc) (λ j e. cc)) stay_none
step-Stays {i} {r} {p} (work j) rest h is = step_work p j (work-Stays j is)
step-Stays {i} {r} {p} (wake j) rest h is =
    step_wake p j (wake-Hangs j (get_elem? p.workers j) h.0 is)

run-Stays :
    {i : ℕ} {r : Option ℕ} (actions : List Action) {p : Pool}
    → NoWake i actions
    → Hangs i r p
    → Stays i r (run actions p)
unfolding run
run-Stays [] h is = stay is
run-Stays {i} (a ∷ rest) {p} h is = elim (Option-cases (step a p)) [
  | inl e ↦ rw (e, run) stay_none
  | inr (q, e) ↦ rw (e, run) (run-Stays rest (rest-NoWake i a rest h) (step-Stays a rest h is q e))
]

-- The worker at position 1 finds the flag down; then the shutdown sets it and broadcasts, before the
-- worker waits.
abbrev pub late_wait : Option ℕ → List Action
late_wait r = work 1 ∷ request_shutdown r ∷ broadcast_all ∷ work 1 ∷ []

late :
    (r : Option ℕ) (actions : List Action)
    → (q : Pool) × (run (late_wait r ++ actions) (new_pool 2) ≡ run actions q) × Hangs 1 r q
unfolding run step new_pool work_step set_phase shutdown_step broadcast_step rouse
late r actions = (_, refl, record { at_join = refl; sleeps = refl })

-- A shutdown may hang. In a pool of two workers, where the worker at position 1 tests the flag before
-- the shutdown sets it and waits only after the broadcast, the listener's thread waits for the end of
-- that worker, and keeps waiting for it, whatever steps follow, unless the worker wakes up without a
-- signal.
pub lost_broadcast :
    (r : Option ℕ) (actions : List Action) (p : Pool)
    → NoWake 1 actions
    → run (late_wait r ++ actions) (new_pool 2) ≡ some p
    → (p.main ≡ joining 1 r) × (get_elem? p.workers 1 ≡ some asleep)
lost_broadcast r actions p h e =
    let (q, reached, hangs) = late r actions in
    let is = run-Stays actions h hangs p (sym reached ∙ e) in (is.at_join, is.sleeps)
