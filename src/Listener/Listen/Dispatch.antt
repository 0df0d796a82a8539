-- ===== src/Listener/Listen/Dispatch.antt =====
-- The loop of listen over the descriptors after select, against the list of descriptors.
use magicserver.Prelude.{
  ℕ, zero, suc, ◌<◌, ◌≡◌, refl, sym, ap, subst, ◌∙◌, inl, inr, Bool, true, false, List, [], ◌∷◌,
  ◌++◌, append_assoc, arith, ℤ, ◌==ℤ◌, ==ℤ_refl, lt→ltb, le→ltb_false, length, length-append,
  Bool-cases, Outcome, ok, ◌>>=◌, Returns, Returns-ok,
}
use magicserver.Errors.{MsrvResult, shutdown_event}
use magicserver.Container.Array.Contents.{IsArray}
use magicserver.Container.Array.Iteration.{at_index_lem}
use magicserver.Listener.{Descriptor, start_shutdown}
use magicserver.Listener.Removal.{Watches, length-ltb}
use magicserver.Listener.Listen.{
  Inheritor, IsInheritor, fd_isset, is_member, beyond_set, after_event, dispatch_loop,
}
use magicserver.Listener.Listen.Watching.{InSet, numbers}

-- All of these descriptors were put into the set.
abbrev pub Members : List ℤ → List Descriptor → Type 0
Members fds [] = Unit {0}
Members fds (d ∷ ds) = (is_member d.fd fds ≡ true) × Members fds ds

is_member-numbers :
    (done : List Descriptor) (x : Descriptor) (rest : List Descriptor)
    → is_member x.fd (numbers (done ++ x ∷ rest)) ≡ true
unfolding is_member
is_member-numbers [] x rest = rw (==ℤ_refl x.fd)
is_member-numbers (y ∷ done) x rest = ground (arith, is_member-numbers done x rest)

pub Members-numbers : (done rest : List Descriptor) → Members (numbers (done ++ rest)) rest
Members-numbers done [] = tt
Members-numbers done (x ∷ rest) = (
  is_member-numbers done x rest,
  subst (λ l. Members (numbers l) rest) (append_assoc done (x ∷ []) rest)
      (Members-numbers (done ++ x ∷ []) rest),
)

pub InSet-rest : (done rest : List Descriptor) → InSet (done ++ rest) → InSet rest
InSet-rest [] rest inside = inside
InSet-rest (y ∷ done) rest inside = InSet-rest done rest inside.1

-- A descriptor of the set: FD_ISSET tells whether it has changed.
pub fd_isset_lem :
    (changed : ℤ → Bool) (fds : List ℤ) (fd : ℤ)
    → beyond_set fd ≡ false
    → is_member fd fds ≡ true
    → fd_isset changed fds fd ≡ ok (changed fd)
unfolding fd_isset
fd_isset_lem changed fds fd inside member = rw (inside, member)

module _ {S : Type 0} (c : Inheritor S) where
  -- The events of the descriptors that have changed, one after the other.
  unfoldable pub each : List Descriptor → (ℤ → Bool) → S → Outcome S
  each [] changed s = ok s
  each (d ∷ ds) changed s = elim (changed d.fd) [
    | false ↦ each ds changed s
    | true ↦ do r ← c.descriptor_event d.fd d.object s; each ds changed (after_event c r)
  ]

  module _ (ds : List Descriptor) (lawful : IsInheritor c)
      (calm : (d : Descriptor) (s : S)
        → Watches (c.listener s) ds
        → Returns
            (λ (r, s'). Watches (c.listener s') ds)
            (c.descriptor_event d.fd d.object s)) where
    after-Watches :
        (r : MsrvResult) (s : S)
        → Watches (c.listener s) ds
        → Watches (c.listener (after_event c (r, s))) ds
    unfolding after_event start_shutdown
    after-Watches r s w = elim (Bool-cases (r ==ℤ shutdown_event)) [
      | inl e ↦ rw e (
          subst (λ l. Watches l ds) (sym (lawful (start_shutdown (c.listener s)) s))
            (record { sane = w.sane; held = w.held }))
      | inr e ↦ rw e w
    ]

    dispatch-each :
        (f : ℕ) (changed : ℤ → Bool) (fds : List ℤ) (done rest : List Descriptor) (s : S)
        → ds ≡ done ++ rest
        → Watches (c.listener s) ds
        → InSet rest
        → Members fds rest
        → length rest < f
        → dispatch_loop c f (length done) changed fds s ≡ each rest changed s
    unfolding dispatch_loop each
    dispatch-each zero changed fds done rest s split w inside members h = absurd (omega arith)
    dispatch-each (suc f) changed fds done [] s split w inside members h =
        let e = length-ltb (length done) w.held in
        let d =
          le→ltb_false (length done) (length ds)
            (omega (arith, ap length split, length-append done [])) in
        rw (e, dispatch_loop) (rw d)
    dispatch-each (suc f) changed fds done (x ∷ rest) s split w (low, inside) (member, members) h =
        let e = length-ltb (length done) w.held in
        let d =
          lt→ltb (length done) (length ds)
            (omega (arith, ap length split, length-append done (x ∷ rest))) in
        let found =
          at_index_lem done x rest
            (subst (IsArray (c.listener s).storage (c.listener s).descriptors) split w.held) in
        let isset = fd_isset_lem changed fds x.fd low member in
        let next = split ∙ sym (append_assoc done (x ∷ []) rest) in
        let count : suc (length done) ≡ length (done ++ x ∷ []) =
          omega (arith, length-append done (x ∷ [])) in
        rw (e, dispatch_loop)
          (rw (d, found)
            (rw (isset, dispatch_loop)
              (elim (Bool-cases (changed x.fd)) [
                | inr no_change ↦
                    rw (no_change, each)
                      (rw count (
                        dispatch-each f changed fds (done ++ x ∷ []) rest s next w inside members
                          (omega arith)))
                | inl has_changed ↦
                    let ((r, s'), run, w') = Returns-ok (calm x s w) in
                    rw (has_changed, each)
                      (rw (run, count)
                        (dispatch-each f changed fds (done ++ x ∷ []) rest (after_event c (r, s'))
                          next (after-Watches r s' w') inside members (omega arith)))
              ])))

    -- For a class whose events leave the descriptors as they are, and descriptors that may be put into
    -- a set: with fuel for one round more than there are descriptors, the loop after select handles the
    -- events of exactly those that have changed, each once and in their order, whatever the events do
    -- to the rest of the state; the first that answers MSRVERR_SHUTDOWN_EVENT does not end it.
    pub dispatch_loop-each :
        (f : ℕ) (changed : ℤ → Bool) (s : S)
        → Watches (c.listener s) ds
        → InSet ds
        → length ds < f
        → dispatch_loop c f 0 changed (numbers ds) s ≡ each ds changed s
    dispatch_loop-each f changed s w inside h =
        dispatch-each f changed (numbers ds) [] ds s refl w inside (Members-numbers [] ds) h

    -- For a class whose events leave the descriptors `ds` as they are. In the round after select,
    -- at a descriptor `x` that has changed, on descriptors that all were put into the set, with
    -- more fuel than there are descriptors behind the next: when the event takes `x` out of the
    -- listener, so that `ds` is left, the loop goes on at the next position: the descriptor `y`
    -- that stood behind `x` gets no event in this round, whether it has changed or not, and the
    -- loop handles those behind `y` as before.
    pub dispatch_loop_skips :
        {s' : S} (f : ℕ) (changed : ℤ → Bool) (done : List Descriptor) (x y : Descriptor)
        (rest : List Descriptor) (s : S) (r : MsrvResult)
        → ds ≡ done ++ y ∷ rest
        → Watches (c.listener s) (done ++ x ∷ y ∷ rest)
        → InSet (done ++ x ∷ y ∷ rest)
        → changed x.fd ≡ true
        → c.descriptor_event x.fd x.object s ≡ ok (r, s')
        → Watches (c.listener s') ds
        → length rest < f
        → dispatch_loop c (suc f) (length done) changed (numbers (done ++ x ∷ y ∷ rest)) s
          ≡ each rest changed (after_event c (r, s'))
    unfolding dispatch_loop
    dispatch_loop_skips {s'} f changed done x y rest s r left w inside has_changed run w' h =
        let fds = numbers (done ++ x ∷ y ∷ rest) in
        let e = length-ltb (length done) w.held in
        let d =
          lt→ltb (length done) (length (done ++ x ∷ y ∷ rest))
            (omega (arith, length-append done (x ∷ y ∷ rest))) in
        let (low, (low', inside')) = InSet-rest done (x ∷ y ∷ rest) inside in
        let (member, (member', members)) = Members-numbers done (x ∷ y ∷ rest) in
        let isset = fd_isset_lem changed fds x.fd low member in
        let count : suc (length done) ≡ length (done ++ y ∷ []) =
          omega (arith, length-append done (y ∷ [])) in
        rw (e, dispatch_loop)
          (rw (d, at_index_lem done x (y ∷ rest) w.held)
            (rw (isset, dispatch_loop)
              (rw (has_changed, ◌>>=◌)
                (rw (run, count)
                  (dispatch-each f changed fds (done ++ y ∷ []) rest (after_event c (r, s'))
                    (left ∙ sym (append_assoc done (y ∷ []) rest)) (after-Watches r s' w') inside'
                    members h)))))
