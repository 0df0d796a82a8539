-- ===== src/Worker/Account.antt =====
-- Where the requests are: in the queue, in a worker's hand, or handled. What each step does to that.
use magicserver.Prelude.{
  ℕ, zero, suc, ◌+◌, ◌≡◌, refl, ap, subst, ◌∙◌, inl, inr, Option, none, some, List, [], ◌∷◌, ◌++◌,
  append_assoc, map, get_elem?, replicate, arith, ◌==◌, if◌then◌else◌, Bool-cases,
}
use magicserver.Worker.{
  Phase, testing, entering, asleep, pulling, handling, finished, Main, outside, signalling,
  broadcasting, joining, Pool, set_phase, rouse, none_asleep, submit_step, wake_step, signal_step,
  shutdown_step, broadcast_step, join_worker, join_step,
}

-- How often a request stands in a list.
abbrev pub count : ℕ → List ℕ → ℕ
count r [] = 0
count r (q ∷ qs) = (if q == r then 1 else 0) + count r qs

abbrev pub holds : ℕ → Phase → ℕ
holds r (handling q) = if q == r then 1 else 0
holds r w = 0

-- How many workers have the request in hand.
abbrev pub in_hand : ℕ → List Phase → ℕ
in_hand r [] = 0
in_hand r (w ∷ ws) = holds r w + in_hand r ws

pub count-append : (r : ℕ) (xs ys : List ℕ) → count r (xs ++ ys) ≡ count r xs + count r ys
count-append r [] ys = omega arith
count-append r (x ∷ xs) ys = omega (arith, count-append r xs ys)

-- What a worker's change of phase does to the count.
pub in_hand-set_phase :
    (r : ℕ) (ws : List Phase) (i : ℕ) (v w : Phase)
    → get_elem? ws i ≡ some v
    → in_hand r (set_phase ws i w) + holds r v ≡ in_hand r ws + holds r w
unfolding set_phase
in_hand-set_phase r [] i v w h = cc
in_hand-set_phase r (u ∷ ws) zero v w h = ground (arith, h)
in_hand-set_phase r (u ∷ ws) (suc i) v w h = omega (arith, in_hand-set_phase r ws i v w h)

in_hand-map : (r : ℕ) (ws : List Phase) → in_hand r (map rouse ws) ≡ in_hand r ws
unfolding rouse
in_hand-map r [] = refl
in_hand-map r (testing ∷ ws) = omega (arith, in_hand-map r ws)
in_hand-map r (entering ∷ ws) = omega (arith, in_hand-map r ws)
in_hand-map r (asleep ∷ ws) = omega (arith, in_hand-map r ws)
in_hand-map r (pulling ∷ ws) = omega (arith, in_hand-map r ws)
in_hand-map r (handling q ∷ ws) = omega (arith, in_hand-map r ws)
in_hand-map r (finished ∷ ws) = omega (arith, in_hand-map r ws)

pub in_hand-replicate : (r n : ℕ) → in_hand r (replicate n testing) ≡ 0
in_hand-replicate r zero = refl
in_hand-replicate r (suc n) = omega (arith, in_hand-replicate r n)

-- The requests were taken in the order in which they came, the others wait in that order, and each
-- that was taken was handled as often, or is in a worker's hand.
pub record IsPool (p : Pool) : Type 0 where
  pub arrived : p.submitted ≡ p.taken ++ p.queue
  pub accounted : (r : ℕ) → count r p.taken ≡ count r p.handled + in_hand r p.workers

abbrev pub Keeps : Option Pool → Type 0
Keeps q = (p' : Pool) → q ≡ some p' → IsPool p'

pub some_injective : {p q : Pool} → some p ≡ some q → p ≡ q
some_injective h = cc

pub keep : {p : Pool} → IsPool p → Keeps (some p)
keep is p' e = subst IsPool (some_injective e) is

pub keep_none : Keeps none
keep_none p' e = cc

pub submit-IsPool : (r : ℕ) (m : Main) {p : Pool} → IsPool p → Keeps (submit_step r m p)
unfolding submit_step
submit-IsPool r outside {p} is = keep (record {
  arrived = ap (λ l. l ++ r ∷ []) is.arrived ∙ append_assoc p.taken p.queue (r ∷ []);
  accounted = is.accounted;
})
submit-IsPool r signalling is = keep_none
submit-IsPool r (broadcasting q) is = keep_none
submit-IsPool r (joining i q) is = keep_none

-- A phase that holds as much as the one before.
pub set-IsPool :
    {p : Pool} (i : ℕ) (v w : Phase)
    → get_elem? p.workers i ≡ some v
    → ((r : ℕ) → holds r v ≡ holds r w)
    → IsPool p
    → IsPool (record p { workers = set_phase p.workers i w })
set-IsPool {p} i v w h same is = record {
  arrived = is.arrived;
  accounted = λ r. omega (arith, is.accounted r, same r, in_hand-set_phase r p.workers i v w h);
}

main-IsPool :
    {p q : Pool}
    → q.submitted ≡ p.submitted
    → q.taken ≡ p.taken
    → q.queue ≡ p.queue
    → q.handled ≡ p.handled
    → q.workers ≡ p.workers
    → IsPool p
    → IsPool q
main-IsPool {p} {q} a b c d e is = record {
  arrived = rw (a, b, c) is.arrived;
  accounted = λ r. rw (b, d, e) (is.accounted r);
}

pub wake-IsPool :
    (i : ℕ) (w : Option Phase) {p : Pool}
    → get_elem? p.workers i ≡ w
    → IsPool p
    → Keeps (wake_step i w p)
unfolding wake_step
wake-IsPool i none h is = keep_none
wake-IsPool i (some asleep) h is = keep (set-IsPool i asleep pulling h (λ r. refl) is)
wake-IsPool i (some testing) h is = keep_none
wake-IsPool i (some entering) h is = keep_none
wake-IsPool i (some pulling) h is = keep_none
wake-IsPool i (some (handling q)) h is = keep_none
wake-IsPool i (some finished) h is = keep_none

pub signal-IsPool : (i : Option ℕ) (m : Main) {p : Pool} → IsPool p → Keeps (signal_step i m p)
unfolding signal_step
signal-IsPool none signalling {p} is = elim (Bool-cases (none_asleep p.workers)) [
  | inl e ↦ rw e (keep (main-IsPool refl refl refl refl refl is))
  | inr e ↦ rw e keep_none
]
signal-IsPool (some i) signalling {p} is =
    wake-IsPool i (get_elem? p.workers i) refl (main-IsPool {p = p} refl refl refl refl refl is)
signal-IsPool none outside is = keep_none
signal-IsPool none (broadcasting r) is = keep_none
signal-IsPool none (joining j r) is = keep_none
signal-IsPool (some i) outside is = keep_none
signal-IsPool (some i) (broadcasting r) is = keep_none
signal-IsPool (some i) (joining j r) is = keep_none

pub shutdown-IsPool : (r : Option ℕ) (m : Main) {p : Pool} → IsPool p → Keeps (shutdown_step r m p)
unfolding shutdown_step
shutdown-IsPool r outside {p} is = elim (Bool-cases p.is_shutdown) [
  | inl e ↦ rw e (keep (main-IsPool refl refl refl refl refl is))
  | inr e ↦ rw e (keep (main-IsPool refl refl refl refl refl is))
]
shutdown-IsPool r signalling is = keep_none
shutdown-IsPool r (broadcasting q) is = keep_none
shutdown-IsPool r (joining j q) is = keep_none

pub broadcast-IsPool : (m : Main) {p : Pool} → IsPool p → Keeps (broadcast_step m p)
unfolding broadcast_step
broadcast-IsPool (broadcasting r) {p} is = keep (record {
  arrived = is.arrived;
  accounted = λ q. omega (arith, is.accounted q, in_hand-map q p.workers);
})
broadcast-IsPool outside is = keep_none
broadcast-IsPool signalling is = keep_none
broadcast-IsPool (joining j q) is = keep_none

join_worker-IsPool :
    (i : ℕ) (r : Option ℕ) (w : Option Phase) {p : Pool} → IsPool p → Keeps (join_worker i r w p)
unfolding join_worker
join_worker-IsPool i r none is = keep (main-IsPool refl refl refl refl refl is)
join_worker-IsPool i r (some finished) is = keep (main-IsPool refl refl refl refl refl is)
join_worker-IsPool i r (some testing) is = keep_none
join_worker-IsPool i r (some entering) is = keep_none
join_worker-IsPool i r (some asleep) is = keep_none
join_worker-IsPool i r (some pulling) is = keep_none
join_worker-IsPool i r (some (handling q)) is = keep_none

pub join-IsPool : (m : Main) {p : Pool} → IsPool p → Keeps (join_step m p)
unfolding join_step
join-IsPool (joining i r) {p} is = join_worker-IsPool i r (get_elem? p.workers i) is
join-IsPool outside is = keep_none
join-IsPool signalling is = keep_none
join-IsPool (broadcasting q) is = keep_none
