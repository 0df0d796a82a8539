-- ===== src/Lock/Threads/Progress.antt =====
-- Every call on an object whose operations release its lock can return.
use magicserver.Prelude.{
  ℕ, ◌≡◌, ◌≢◌, refl, sym, ap, subst, ◌∙◌, List, [], ◌∷◌, ◌++◌, map, if◌then◌else◌, Outcome, fault,
  out_of_fuel, Returns-ok, ok, ◌>>=◌, Returns, returns, Returns-mono, inl, inr, eq→==, map-append,
}
use magicserver.Lock.Threads.{
  more, Code, Status, idle, calling, inside, Threads, Action, proceed, may_lock, stepped, advance,
  act, run,
}
use magicserver.Lock.Threads.Atomic.{
  Alone, end, onward, Outside, Free, Busy, Settled, Total, set_status-Outside, set_status-same,
  set_status-Inside,
}

-- The first part of a run.
first_part :
    {A B : Type 0} {P : B → Type 0} {f : A → Outcome B} (r : Outcome A)
    → Returns P (r >>= f)
    → (a : A) × (r ≡ ok a) × Returns P (f a)
first_part (ok a) h = (a, refl, h)
first_part (fault e) h = elim h [ ]
first_part out_of_fuel h = elim h [ ]

module _ {S Op K R : Type 0} (code : Code S Op K R)
    (Spec : List (ℕ × Op) → List (ℕ × R) → S → Type 0) where
  -- The thread `i` takes no part in the object, and nobody is inside.
  abbrev pub Done : ℕ → Threads S Op K R → Type 0
  Done i t = Free code Spec t × (t.status i ≡ idle)

  -- A sequence of steps in two parts.
  run-append :
      {P Q : Threads S Op K R → Type 0} (xs ys : List (Action Op)) (t : Threads S Op K R)
      → Returns P (run code xs t)
      → ((u : Threads S Op K R) → P u → Returns Q (run code ys u))
      → Returns Q (run code (xs ++ ys) t)
  unfolding run
  run-append [] ys t (returns p) k = k t p
  run-append (x ∷ xs) ys t h k =
      let (u, e, h₁) = first_part (act code x t) h in rw e (run-append xs ys u h₁ k)

  -- The thread goes on alone, from a step that it can take.
  drive :
      {k : K} {r : R} {s' : S} (i : ℕ) (t t₀ : Threads S Op K R)
      → Alone code k t₀.shared r s'
      → advance code i (t.status i) t ≡ (code.next k t₀.shared >>= λ x. ok (stepped code i x t₀))
      → ((j : ℕ) → j ≢ i → Outside code (t₀.status j))
      → Spec t₀.calls (t₀.results ++ (i, r) ∷ []) s'
      → (who : List ℕ) × Returns (Done i) (run code (map proceed who) t)
  unfolding run act stepped
  drive {s'} i t t₀ (end e d) first others spec = (
    i ∷ [],
    rw first (
        rw (e, eq→== (code.depth s') 0 d)
          (returns (
            record {
              unowned = refl;
              outside = λ j. set_status-Outside code i j idle t₀.status tt (others j);
              spec = spec;
            },
            set_status-same code i idle t₀.status,
          ))),
  )
  drive i t t₀ (onward {k'} {s₁} e d rest) first others spec =
      let (who, h) =
        drive i (stepped code i (more k', s₁) t₀) (stepped code i (more k', s₁) t₀) rest
          (ap (λ st. advance code i st (stepped code i (more k', s₁) t₀))
            (set_status-same code i (inside k') t₀.status))
          (λ j ne. set_status-Inside code i j (inside k') t₀.status ne (others j ne)) spec in
      (i ∷ who, rw first (rw e h))

  -- The thread that is inside can end its call.
  leave :
      (t : Threads S Op K R)
      → Busy code Spec t
      → (who : List ℕ) × Returns (Free code Spec) (run code (map proceed who) t)
  unfolding advance
  leave t b =
      let (who, h) =
        drive b.thread t t b.rest (ap (λ st. advance code b.thread st t) b.at) b.outside b.spec in
      (who, Returns-mono h λ u d. d.0)

  -- A thread can end its call when nobody is inside.
  enter :
      (i : ℕ) (st : Status Op K) (t : Threads S Op K R)
      → Total code Spec
      → t.status i ≡ st
      → Free code Spec t
      → (who : List ℕ) × Returns (Done i) (run code (map proceed who) t)
  unfolding advance run
  enter i idle t total e f = ([], returns (f, e))
  enter i (calling op) t total e f =
      let (r, s', alone, spec) = total t.calls t.results t.shared i op f.spec in
      drive i t (record t { calls = t.calls ++ (i, op) ∷ [] }) alone
        (ap (λ st. advance code i st t) e
          ∙ ap
              (λ b.
                if b
                then (do
                  x ← code.next (code.start op) t.shared
                  ok (stepped code i x (record t { calls = t.calls ++ (i, op) ∷ [] })))
                else ok t)
              (ap (may_lock i) f.unowned))
        (λ j ne. f.outside j) spec
  enter i (inside k) t total e f = absurd (subst (Outside code) e (f.outside i))

  -- From wherever the threads are, if they call nothing more, nobody is inside in the end, and the call of thread `i` has returned.
  pub run-Done :
      Total code Spec
      → (i : ℕ) (t : Threads S Op K R) → Settled code Spec t
      → (who : List ℕ) × Returns (Done i) (run code (map proceed who) t)
  run-Done total i t (inl f) = enter i (t.status i) t total refl f
  run-Done total i t (inr b) =
      let (who, h) = leave t b in
      let (u, e, f) = Returns-ok h in
      let (who₁, h₁) = enter i (u.status i) u total refl f in
      (
        who ++ who₁,
        rw (map-append {B = Action Op} proceed who who₁) (
            run-append {P = λ v. v ≡ u} (map proceed who) (map proceed who₁) t
              (subst (Returns (λ v. v ≡ u)) (sym e) (returns refl))
              (λ v q. subst (λ w. Returns (Done i) (run code (map proceed who₁) w)) (sym q) h₁)),
      )
