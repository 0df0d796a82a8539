-- ===== src/Worker/Progress.antt =====
-- How far a shutdown of the pool has come: which workers have ended. What the steps of the listener's
-- thread before the joins, and a wakeup, do to that.
use magicserver.Prelude.{
  ℕ, zero, suc, ◌≤◌, ◌<◌, ◌≡◌, refl, subst, inl, inr, Bool, true, Option, none, some, List, [], ◌∷◌,
  map, get_elem?, arith, Bool-cases,
}
use magicserver.Errors.{success, repeat_shutdown_request}
use magicserver.Worker.{
  Phase, testing, entering, asleep, pulling, handling, finished, Main, outside, signalling,
  broadcasting, joining, Pool, set_phase, rouse, none_asleep, submit_step, wake_step, signal_step,
  shutdown_step, broadcast_step,
}
use magicserver.Worker.Account.{some_injective}

-- No worker, or one that has ended.
abbrev pub AtEnd : Option Phase → Type 0
AtEnd none = Unit {0}
AtEnd (some finished) = Unit {0}
AtEnd (some testing) = ⊥
AtEnd (some entering) = ⊥
AtEnd (some asleep) = ⊥
AtEnd (some pulling) = ⊥
AtEnd (some (handling r)) = ⊥

-- The workers from position 1 on have ended; below a position, or all.
abbrev pub Upto : ℕ → List Phase → Type 0
Upto i ws = (j : ℕ) → 1 ≤ j → j < i → AtEnd (get_elem? ws j)

abbrev pub Tail : List Phase → Type 0
Tail ws = (j : ℕ) → 1 ≤ j → AtEnd (get_elem? ws j)

-- How far a shutdown has come.
abbrev pub Progress : Main → Bool → List Phase → Type 0
Progress outside b ws = b ≡ true → Tail ws
Progress signalling b ws = b ≡ true → Tail ws
Progress (broadcasting r) b ws = b ≡ true
Progress (joining i r) b ws = (b ≡ true) × (1 ≤ i) × Upto i ws

-- Whoever has ended stays so.
abbrev pub Later : List Phase → List Phase → Type 0
Later ws ws' = (j : ℕ) → AtEnd (get_elem? ws j) → AtEnd (get_elem? ws' j)

Progress-Later :
    (ws ws' : List Phase) (m : Main) (b : Bool) → Later ws ws' → Progress m b ws → Progress m b ws'
Progress-Later ws ws' outside b l h = λ e j low. l j (h e j low)
Progress-Later ws ws' signalling b l h = λ e j low. l j (h e j low)
Progress-Later ws ws' (broadcasting r) b l h = h
Progress-Later ws ws' (joining i r) b l (h, low, upto) =
    (h, low, λ j low' high. l j (upto j low' high))

-- A worker that has not ended goes on.
set-Later :
    (ws : List Phase) (i : ℕ) (v w : Phase)
    → get_elem? ws i ≡ some v
    → (AtEnd (some v) → ⊥)
    → Later ws (set_phase ws i w)
unfolding set_phase
set-Later [] i v w e n j h = h
set-Later (u ∷ ws) zero v w e n zero h = absurd (n (subst AtEnd e h))
set-Later (u ∷ ws) zero v w e n (suc j) h = h
set-Later (u ∷ ws) (suc i) v w e n zero h = h
set-Later (u ∷ ws) (suc i) v w e n (suc j) h = set-Later ws i v w e n j h

rouse-Later : (ws : List Phase) → Later ws (map rouse ws)
unfolding rouse
rouse-Later [] j h = h
rouse-Later (finished ∷ ws) zero h = h
rouse-Later (testing ∷ ws) zero h = h
rouse-Later (entering ∷ ws) zero h = h
rouse-Later (asleep ∷ ws) zero h = h
rouse-Later (pulling ∷ ws) zero h = h
rouse-Later (handling r ∷ ws) zero h = h
rouse-Later (w ∷ ws) (suc j) h = rouse-Later ws j h

-- Behind the last worker there is none.
pub none_behind :
    (ws : List Phase) (i j : ℕ) → get_elem? ws i ≡ none → i ≤ j → AtEnd (get_elem? ws j)
none_behind [] i j e h = tt
none_behind (w ∷ ws) zero j e h = absurd (cc)
none_behind (w ∷ ws) (suc i) zero e h = absurd (omega arith)
none_behind (w ∷ ws) (suc i) (suc j) e h = none_behind ws i j e (omega arith)

abbrev pub IsJoining : Pool → Type 0
IsJoining p = Progress p.main p.is_shutdown p.workers

abbrev pub Keeps : Option Pool → Type 0
Keeps q = (p' : Pool) → q ≡ some p' → IsJoining p'

pub keep : (p : Pool) → IsJoining p → Keeps (some p)
keep p is p' e = subst IsJoining (some_injective e) is

pub keep_none : Keeps none
keep_none p' e = cc

pub set-Keeps :
    (p q : Pool) (i : ℕ) (v w : Phase)
    → get_elem? p.workers i ≡ some v
    → (AtEnd (some v) → ⊥)
    → q.main ≡ p.main
    → q.is_shutdown ≡ p.is_shutdown
    → q.workers ≡ set_phase p.workers i w
    → IsJoining p
    → Keeps (some q)
set-Keeps p q i v w e n same_main same_flag changed is = keep q (
    rw (same_main, same_flag, changed)
      (Progress-Later p.workers (set_phase p.workers i w) p.main p.is_shutdown
        (set-Later p.workers i v w e n) is))

pub submit-Keeps :
    (r : ℕ) (m : Main) (p : Pool) → Progress m p.is_shutdown p.workers → Keeps (submit_step r m p)
unfolding submit_step
submit-Keeps r outside p is = keep _ is
submit-Keeps r signalling p is = keep_none
submit-Keeps r (broadcasting q) p is = keep_none
submit-Keeps r (joining i q) p is = keep_none

pub wake-Keeps :
    (i : ℕ) (w : Option Phase) (p : Pool)
    → get_elem? p.workers i ≡ w
    → IsJoining p
    → Keeps (wake_step i w p)
unfolding wake_step
wake-Keeps i none p e is = keep_none
wake-Keeps i (some asleep) p e is = set-Keeps p _ i asleep pulling e (λ n. n) refl refl refl is
wake-Keeps i (some testing) p e is = keep_none
wake-Keeps i (some entering) p e is = keep_none
wake-Keeps i (some pulling) p e is = keep_none
wake-Keeps i (some (handling q)) p e is = keep_none
wake-Keeps i (some finished) p e is = keep_none

pub signal-Keeps :
    (i : Option ℕ) (m : Main) (p : Pool)
    → Progress m p.is_shutdown p.workers
    → Keeps (signal_step i m p)
unfolding signal_step
signal-Keeps none signalling p is = elim (Bool-cases (none_asleep p.workers)) [
  | inl e ↦ rw e (keep _ is)
  | inr e ↦ rw e keep_none
]
signal-Keeps (some i) signalling p is =
    wake-Keeps i (get_elem? p.workers i) (record p { main = outside; result = success }) refl is
signal-Keeps none outside p is = keep_none
signal-Keeps none (broadcasting r) p is = keep_none
signal-Keeps none (joining j r) p is = keep_none
signal-Keeps (some i) outside p is = keep_none
signal-Keeps (some i) (broadcasting r) p is = keep_none
signal-Keeps (some i) (joining j r) p is = keep_none

pub shutdown-Keeps :
    (r : Option ℕ) (m : Main) (p : Pool) → p.main ≡ m → IsJoining p → Keeps (shutdown_step r m p)
unfolding shutdown_step
shutdown-Keeps r outside p e is = elim (Bool-cases p.is_shutdown) [
  | inl f ↦ rw f (
      keep (record p { is_shutdown = true; result = repeat_shutdown_request })
        (subst (λ b. Progress p.main b p.workers) f is))
  | inr f ↦ rw f (keep _ refl)
]
shutdown-Keeps r signalling p e is = keep_none
shutdown-Keeps r (broadcasting q) p e is = keep_none
shutdown-Keeps r (joining j q) p e is = keep_none

pub broadcast-Keeps :
    (m : Main) (p : Pool) → Progress m p.is_shutdown p.workers → Keeps (broadcast_step m p)
unfolding broadcast_step
broadcast-Keeps (broadcasting r) p is = keep _ (is, omega arith, λ j low high. absurd (omega arith))
broadcast-Keeps outside p is = keep_none
broadcast-Keeps signalling p is = keep_none
broadcast-Keeps (joining j q) p is = keep_none
