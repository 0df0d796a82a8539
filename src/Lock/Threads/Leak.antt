-- ===== src/Lock/Threads/Leak.antt =====
-- An operation that returns without its unlock(), and the threads that come after it.
use magicserver.Prelude.{
  ℕ, ◌≡◌, ◌≢◌, refl, ap, subst, ◌∙◌, arith, some, List, [], ◌∷◌, ◌++◌, append_assoc, ◌==◌, ok,
  ◌>>=◌, Returns, returns, Returns-bind, inl, inr, Bool-cases, ne→==_false, ==→eq,
}
use magicserver.Lock.Threads.{
  Place, more, returned, Code, Status, idle, calling, inside, Threads, Action, call, proceed,
  may_lock, set_status, stepped, advance, begin, act, run,
}
use magicserver.Lock.Threads.Atomic.{Outside, set_status-Outside}

module _ {S Op K R : Type 0} (code : Code S Op K R) where
  -- No step under the lock fails or makes the lock free.
  abbrev pub KeepsLock : Type 0
  KeepsLock =
      (k : K) (s : S) → code.depth s ≢ 0 → Returns (λ (p, s'). code.depth s' ≢ 0) (code.next k s)

  -- Results of one thread only.
  pub data AllOf (i : ℕ) : List (ℕ × R) → Type 0 where
    no_more : AllOf i []
    and_then : {r : R} {rs : List (ℕ × R)} → AllOf i rs → AllOf i ((i, r) ∷ rs)

  -- Thread `i` has the lock, no other thread is inside, and what returned after `rs` was called by `i`.
  pub record HeldBy (i : ℕ) (rs : List (ℕ × R)) (t : Threads S Op K R) : Type 0 where
    pub owned : t.owner ≡ some i
    pub locked : code.depth t.shared ≢ 0
    pub outside : (j : ℕ) → j ≢ i → Outside code (t.status j)
    pub later : List (ℕ × R)
    pub returned_since : t.results ≡ rs ++ later
    pub its_own : AllOf i later

  AllOf-append : {i : ℕ} {rs : List (ℕ × R)} (r : R) → AllOf i rs → AllOf i (rs ++ (i, r) ∷ [])
  AllOf-append r no_more = and_then no_more
  AllOf-append r (and_then a) = and_then (AllOf-append r a)

  pub set_status-others :
      (i : ℕ) (st : Status Op K) (f : ℕ → Status Op K)
      → ((j : ℕ) → j ≢ i → Outside code (f j))
      → (j : ℕ) → j ≢ i
      → Outside code (set_status i st f j)
  set_status-others i st f others j ne = rw (ne→==_false j i ne) (others j ne)

  -- A step of the thread that has the lock.
  stepped-HeldBy :
      (i : ℕ) (rs : List (ℕ × R)) (p : Place K R) (s : S) (t : Threads S Op K R)
      → code.depth s ≢ 0
      → HeldBy i rs t
      → HeldBy i rs (stepped code i (p, s) t)
  unfolding stepped
  stepped-HeldBy i rs (more k) s t d h = record {
    owned = rw (ne→==_false (code.depth s) 0 d) refl;
    locked = d;
    outside = set_status-others i (inside k) t.status h.outside;
    later = h.later;
    returned_since = h.returned_since;
    its_own = h.its_own;
  }
  stepped-HeldBy i rs (returned r) s t d h = record {
    owned = rw (ne→==_false (code.depth s) 0 d) refl;
    locked = d;
    outside = set_status-others i idle t.status h.outside;
    later = h.later ++ (i, r) ∷ [];
    returned_since = ap (λ l. l ++ (i, r) ∷ []) h.returned_since ∙ append_assoc rs h.later _;
    its_own = AllOf-append r h.its_own;
  }

  owner_step :
      (i : ℕ) (rs : List (ℕ × R)) (k : K) (t : Threads S Op K R)
      → KeepsLock
      → HeldBy i rs t
      → Returns (HeldBy i rs) (do r ← code.next k t.shared; ok (stepped code i r t))
  owner_step i rs k t keeps h =
      Returns-bind (keeps k t.shared h.locked) λ (p, s') d. returns (stepped-HeldBy i rs p s' t d h)

  advance-HeldBy :
      (i j : ℕ) (rs : List (ℕ × R)) (st : Status Op K) (t : Threads S Op K R)
      → KeepsLock
      → t.status j ≡ st
      → HeldBy i rs t
      → Returns (HeldBy i rs) (advance code j st t)
  unfolding advance
  advance-HeldBy i j rs idle t keeps e h = returns h
  advance-HeldBy i j rs (calling op) t keeps e h = elim (Bool-cases (j == i)) [
    | inl q ↦
        rw (ap (may_lock j) h.owned, q)
          (rw (==→eq j i q) (
            owner_step i rs (code.start op) (record t { calls = t.calls ++ (i, op) ∷ [] }) keeps
              (record {
                owned = h.owned;
                locked = h.locked;
                outside = h.outside;
                later = h.later;
                returned_since = h.returned_since;
                its_own = h.its_own;
              })))
    | inr q ↦ rw (ap (may_lock j) h.owned, q) (returns h)
  ]
  advance-HeldBy i j rs (inside k) t keeps e h = elim (Bool-cases (j == i)) [
    | inl q ↦ rw (==→eq j i q) (owner_step i rs k t keeps h)
    | inr q ↦ absurd (subst (Outside code) e (h.outside j (λ x. ground (arith, q, x))))
  ]

  begin-HeldBy :
      (i j : ℕ) (rs : List (ℕ × R)) (op : Op) (st : Status Op K) (t : Threads S Op K R)
      → HeldBy i rs t
      → HeldBy i rs (begin j op st t)
  unfolding begin
  begin-HeldBy i j rs op idle t h = record {
    owned = h.owned;
    locked = h.locked;
    outside = λ n ne. set_status-Outside code j n (calling op) t.status tt (λ _. h.outside n ne);
    later = h.later;
    returned_since = h.returned_since;
    its_own = h.its_own;
  }
  begin-HeldBy i j rs op (calling _) t h = h
  begin-HeldBy i j rs op (inside _) t h = h

  -- Once a thread has the lock for ever, any steps, in any order, end, and only its calls return.
  pub run-HeldBy :
      (i : ℕ) (rs : List (ℕ × R)) (actions : List (Action Op)) (t : Threads S Op K R)
      → KeepsLock
      → HeldBy i rs t
      → Returns (HeldBy i rs) (run code actions t)
  unfolding run act
  run-HeldBy i rs [] t keeps h = returns h
  run-HeldBy i rs (call j op ∷ rest) t keeps h =
      run-HeldBy i rs rest (begin j op (t.status j) t) keeps
        (begin-HeldBy i j rs op (t.status j) t h)
  run-HeldBy i rs (proceed j ∷ rest) t keeps h =
      Returns-bind (advance-HeldBy i j rs (t.status j) t keeps refl h)
        (λ u g. run-HeldBy i rs rest u keeps g)
