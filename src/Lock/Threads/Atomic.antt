-- ===== src/Lock/Threads/Atomic.antt =====
-- An object whose operations take its lock first and release it last, used by any number of threads.
use magicserver.Prelude.{
  ℕ, ◌≡◌, ◌≢◌, refl, sym, ap, subst, ◌∙◌, arith, none, some, List, [], ◌∷◌, ◌++◌, ◌==◌, ok, ◌>>=◌,
  Returns, returns, Returns-bind, ◌⊎◌, inl, inr, Bool-cases, eq→==, ne→==_false, ==→eq,
}
use magicserver.Lock.Threads.{
  more, returned, Code, Status, idle, calling, inside, Threads, Action, call, proceed, may_lock,
  set_status, stepped, advance, begin, act, run,
}

module _ {S Op K R : Type 0} (code : Code S Op K R) where
  -- The rest of an operation, with no step of another thread between: it holds the lock until it
  -- returns.
  pub data Alone : K → S → R → S → Type 0 where
    end :
        {k : K} {s s' : S} {r : R}
        → code.next k s ≡ ok (returned r, s')
        → code.depth s' ≡ 0
        → Alone k s r s'
    onward :
        {k k' : K} {s s₁ s' : S} {r : R}
        → code.next k s ≡ ok (more k', s₁)
        → code.depth s₁ ≢ 0
        → Alone k' s₁ r s'
        → Alone k s r s'

  abbrev pub Outside : Status Op K → Type 0
  Outside idle = Unit
  Outside (calling op) = Unit
  Outside (inside k) = ⊥

  pub set_status-same : (i : ℕ) (st : Status Op K) (f : ℕ → Status Op K) → set_status i st f i ≡ st
  set_status-same i st f = rw (eq→== i i refl) refl

  pub set_status-Outside :
      (i j : ℕ) (st : Status Op K) (f : ℕ → Status Op K)
      → Outside st
      → (j ≢ i → Outside (f j))
      → Outside (set_status i st f j)
  set_status-Outside i j st f a b = elim (Bool-cases (j == i)) [
    | inl e ↦ rw e a
    | inr e ↦ rw e (b (λ q. ground (arith, e, q)))
  ]

  pub set_status-Inside :
      (i j : ℕ) (st : Status Op K) (f : ℕ → Status Op K)
      → j ≢ i
      → Outside (f j)
      → Outside (set_status i st f j)
  set_status-Inside i j st f ne b = rw (ne→==_false j i ne) b

  module _ (Spec : List (ℕ × Op) → List (ℕ × R) → S → Type 0) where
    -- Nobody is inside, and what was called has returned as `Spec` says.
    pub record Free (t : Threads S Op K R) : Type 0 where
      pub unowned : t.owner ≡ none
      pub outside : (j : ℕ) → Outside (t.status j)
      pub spec : Spec t.calls t.results t.shared

    -- One thread is inside. If it goes on alone it will return `result` and leave `final`, as `Spec`
    -- says.
    pub record Busy (t : Threads S Op K R) : Type 0 where
      pub thread : ℕ
      pub place : K
      pub result : R
      pub final : S
      pub owned : t.owner ≡ some thread
      pub at : t.status thread ≡ inside place
      pub outside : (j : ℕ) → j ≢ thread → Outside (t.status j)
      pub rest : Alone place t.shared result final
      pub spec : Spec t.calls (t.results ++ (thread, result) ∷ []) final

    abbrev pub Settled : Threads S Op K R → Type 0
    Settled t = Free t ⊎ Busy t

    -- The step of the thread inside, or of the one that goes in.
    stepped-Settled :
        {k : K} {s s' : S} {r : R} (i : ℕ) (t : Threads S Op K R)
        → Alone k s r s'
        → ((j : ℕ) → j ≢ i → Outside (t.status j))
        → Spec t.calls (t.results ++ (i, r) ∷ []) s'
        → Returns Settled (do x ← code.next k s; ok (stepped code i x t))
    unfolding stepped
    stepped-Settled {s'} i t (end e d) others spec =
        rw (e, eq→== (code.depth s') 0 d)
          (returns (
            inl (record {
              unowned = refl;
              outside = λ j. set_status-Outside i j idle t.status tt (others j);
              spec = spec;
            })))
    stepped-Settled i t (onward {k'} {s₁} e d rest) others spec =
        rw (e, ne→==_false (code.depth s₁) 0 d)
          (returns (
            inr (record {
              thread = i;
              place = k';
              result = _;
              final = _;
              owned = refl;
              at = set_status-same i (inside k') t.status;
              outside = λ j ne. set_status-Inside i j (inside k') t.status ne (others j ne);
              rest = rest;
              spec = spec;
            })))

    -- An operation that starts when nobody is inside runs to its end as `Spec` says.
    abbrev pub Total : Type 0
    Total =
        (cs : List (ℕ × Op)) (rs : List (ℕ × R)) (s : S) (i : ℕ) (op : Op)
        → Spec cs rs s
        → (r : R) × (s' : S) × Alone (code.start op) s r s'
          × Spec (cs ++ (i, op) ∷ []) (rs ++ (i, r) ∷ []) s'

    advance_at_rest :
        (i : ℕ) (st : Status Op K) (t : Threads S Op K R)
        → Total
        → t.status i ≡ st
        → Free t
        → Returns Settled (advance code i st t)
    unfolding advance
    advance_at_rest i idle t total e f = returns (inl f)
    advance_at_rest i (calling op) t total e f =
        let (r, s', alone, spec) = total t.calls t.results t.shared i op f.spec in
        rw (ap (may_lock i) f.unowned) (
          stepped-Settled i (record t { calls = t.calls ++ (i, op) ∷ [] }) alone
            (λ j ne. f.outside j) spec)
    advance_at_rest i (inside k) t total e f = absurd (subst Outside e (f.outside i))

    advance_inside :
        (i : ℕ) (st : Status Op K) (t : Threads S Op K R)
        → t.status i ≡ st
        → Busy t
        → Returns Settled (advance code i st t)
    unfolding advance
    advance_inside i idle t e b = returns (inr b)
    advance_inside i (calling op) t e b = elim (Bool-cases (i == b.thread)) [
      | inl q ↦ cc (e, b.at, ==→eq i b.thread q)
      | inr q ↦ rw (ap (may_lock i) b.owned, q) (returns (inr b))
    ]
    advance_inside i (inside k) t e b = elim (Bool-cases (i == b.thread)) [
      | inl q ↦
          let same : i ≡ b.thread = ==→eq i b.thread q in
          let here : k ≡ b.place = cc (e, b.at, same) in
          stepped-Settled i t (subst (λ p. Alone p t.shared b.result b.final) (sym here) b.rest)
            (λ j ne. b.outside j (λ x. ne (x ∙ sym same)))
            (subst (λ n. Spec t.calls (t.results ++ (n, b.result) ∷ []) b.final) (sym same) b.spec)
      | inr q ↦ absurd (subst Outside e (b.outside i (λ x. ground (arith, q, x))))
    ]

    -- A thread that starts a call.
    begin-Settled :
        (i : ℕ) (op : Op) (st : Status Op K) (t : Threads S Op K R)
        → t.status i ≡ st
        → Settled t
        → Settled (begin i op st t)
    unfolding begin
    begin-Settled i op idle t e (inl f) = inl (record {
      unowned = f.unowned;
      outside = λ j. set_status-Outside i j (calling op) t.status tt (λ ne. f.outside j);
      spec = f.spec;
    })
    begin-Settled i op idle t e (inr b) = inr (record {
      thread = b.thread;
      place = b.place;
      result = b.result;
      final = b.final;
      owned = b.owned;
      at = rw (ne→==_false b.thread i λ x. cc (e, b.at, x)) b.at;
      outside = λ j ne. set_status-Outside i j (calling op) t.status tt (λ _. b.outside j ne);
      rest = b.rest;
      spec = b.spec;
    })
    begin-Settled i op (calling _) t e h = h
    begin-Settled i op (inside _) t e h = h

    -- Any number of threads, in any order of their steps: no step fails.
    pub run-Settled :
        Total
        → (actions : List (Action Op)) (t : Threads S Op K R) → Settled t
        → Returns Settled (run code actions t)
    unfolding run act
    run-Settled total [] t h = returns h
    run-Settled total (call i op ∷ rest) t h =
        run-Settled total rest (begin i op (t.status i) t)
          (begin-Settled i op (t.status i) t refl h)
    run-Settled total (proceed i ∷ rest) t (inl f) =
        Returns-bind (advance_at_rest i (t.status i) t total refl f)
          (λ u h. run-Settled total rest u h)
    run-Settled total (proceed i ∷ rest) t (inr b) =
        Returns-bind (advance_inside i (t.status i) t refl b) (λ u h. run-Settled total rest u h)
