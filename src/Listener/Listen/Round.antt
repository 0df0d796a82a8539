-- ===== src/Listener/Listen/Round.antt =====
-- A round of the listener loop in which one descriptor, the last, has changed, and the end of listen.
use magicserver.Prelude.{
  ℕ, zero, suc, ◌<◌, ◌≡◌, refl, sym, ap, ◌∙◌, subst, true, false, Bool, List, [], ◌∷◌, ◌++◌,
  append_assoc, arith, ℤ, pos, ◌==ℤ◌, ==ℤ_refl, lt→ltb, le→ltb_false, length, length-append, ok,
  ◌>>=◌, Returns-ok, Returns, returns, Returns-bind,
}
use magicserver.Errors.{MsrvResult, success}
use magicserver.Container.Array.Iteration.{at_index_lem}
use magicserver.Lock.{lock, unlock}
use magicserver.Listener.{Descriptor, is_shutdown, log_event, rounds}
use magicserver.Listener.Removal.{Watches, length-ltb, enough}
use magicserver.Listener.Listen.{
  Answer, ready, Inheritor, IsInheritor, after_event, dispatch_loop, handle_answer, check_errors,
  listen_loop, listen, message_of, beyond_set, fd_isset, is_member,
}
use magicserver.Listener.Listen.Watching.{InSet, watch_loop_bounds}
use magicserver.Listener.Listen.Ending.{close_loop-numbers}
use magicserver.Listener.Listen.Dispatch.{fd_isset_lem, Members, Members-numbers}

-- A descriptor that is not in the set.
fd_isset_absent :
    (changed : ℤ → Bool) (fds : List ℤ) (fd : ℤ)
    → beyond_set fd ≡ false
    → is_member fd fds ≡ false
    → fd_isset changed fds fd ≡ ok false
unfolding fd_isset
fd_isset_absent changed fds fd inside absent = rw (inside, absent)

module _ {S : Type 0} (c : Inheritor S) where
  abbrev pub AllSame : (ℤ → Bool) → List Descriptor → Type 0
  AllSame changed [] = Unit {0}
  AllSame changed (d ∷ ds) = (changed d.fd ≡ false) × AllSame changed ds

  -- Behind the last position.
  dispatch_loop-end :
      {ds : List Descriptor} (f : ℕ) (changed : ℤ → Bool) (fds : List ℤ) (s : S)
      → Watches (c.listener s) ds
      → 0 < f
      → dispatch_loop c f (length ds) changed fds s ≡ ok s
  unfolding dispatch_loop
  dispatch_loop-end zero changed fds s w h = absurd (omega (arith, h))
  dispatch_loop-end {ds} (suc f) changed fds s w h =
      let e = length-ltb (length ds) w.held in
      let d = le→ltb_false (length ds) (length ds) (omega arith) in rw (e, dispatch_loop) (rw d)

  -- From position `length done` on, over descriptors that have not changed, to the last, which has.
  dispatch_loop-from :
      {x : Descriptor} {r : MsrvResult} {s' : S} (f : ℕ) (changed : ℤ → Bool) (fds : List ℤ)
      (done pre : List Descriptor) (s : S)
      → Watches (c.listener s) (done ++ (pre ++ x ∷ []))
      → InSet (pre ++ x ∷ [])
      → Members fds (pre ++ x ∷ [])
      → AllSame changed pre
      → changed x.fd ≡ true
      → c.descriptor_event x.fd x.object s ≡ ok (r, s')
      → Watches (c.listener (after_event c (r, s'))) (done ++ (pre ++ x ∷ []))
      → suc (length pre) < f
      → dispatch_loop c f (length done) changed fds s ≡ ok (after_event c (r, s'))
  unfolding dispatch_loop
  dispatch_loop-from zero changed fds done pre s w inside members same has_changed run w' h =
      absurd (omega arith)
  dispatch_loop-from {x} {r} {s'} (suc f) changed fds done [] s w (low, _) (member, _) same
        has_changed run w' h =
      let e = length-ltb (length done) w.held in
      let d =
        lt→ltb (length done) (length (done ++ x ∷ []))
          (omega (arith, length-append done (x ∷ []))) in
      let count : suc (length done) ≡ length (done ++ x ∷ []) =
        omega (arith, length-append done (x ∷ [])) in
      rw (e, dispatch_loop)
        (rw (d, at_index_lem done x [] w.held)
          (rw (fd_isset_lem changed fds x.fd low member, dispatch_loop)
            (rw (has_changed, ◌>>=◌)
              (rw (run, count)
                (dispatch_loop-end f changed fds (after_event c (r, s')) w' (omega (arith, h)))))))
  dispatch_loop-from {x} {r} {s'} (suc f) changed fds done (y ∷ pre) s w (low, inside)
        (member, members) (no_change, same) has_changed run w' h =
      let e = length-ltb (length done) w.held in
      let d =
        lt→ltb (length done) (length (done ++ (y ∷ pre ++ x ∷ [])))
          (omega (arith, length-append done (y ∷ pre ++ x ∷ []))) in
      let count : suc (length done) ≡ length (done ++ y ∷ []) =
        omega (arith, length-append done (y ∷ [])) in
      let next = sym (append_assoc done (y ∷ []) (pre ++ x ∷ [])) in
      rw (e, dispatch_loop)
        (rw (d, at_index_lem done y (pre ++ x ∷ []) w.held)
          (rw (fd_isset_lem changed fds y.fd low member, dispatch_loop)
            (rw (no_change, count)
              (dispatch_loop-from f changed fds (done ++ y ∷ []) pre s
                (subst (Watches (c.listener s)) next w) inside members same has_changed run
                (subst (Watches (c.listener (after_event c (r, s')))) next w')
                (omega (arith, h))))))

  -- The state during the events of a round, and behind them.
  abbrev pub locked_state : S → S
  locked_state s = c.put (record (c.listener s) { thread_lock = lock (c.listener s).thread_lock }) s

  abbrev pub unlocked_state : S → S
  unlocked_state s =
      c.put (record (c.listener s) { thread_lock = unlock (c.listener s).thread_lock }) s

  -- A round in which the event of the last descriptor, the only one that has changed, starts the shutdown ends the
  -- loop.
  pub listen_loop-last :
      {x : Descriptor} {r : MsrvResult} {s' : S} (f errors : ℕ) (changed : ℤ → Bool)
      (answers : List Answer) (pre : List Descriptor) (s : S)
      → IsInheritor c
      → Watches (c.listener s) (pre ++ x ∷ [])
      → InSet (pre ++ x ∷ [])
      → AllSame changed pre
      → changed x.fd ≡ true
      → c.descriptor_event x.fd x.object (locked_state s) ≡ ok (r, s')
      → Watches (c.listener (after_event c (r, s'))) (pre ++ x ∷ [])
      → is_shutdown (c.listener (after_event c (r, s'))) ≡ true
      → suc (length pre) < f
      → listen_loop c f (ready changed ∷ answers) errors s
        ≡ ok (unlocked_state (after_event c (r, s')))
  unfolding listen_loop handle_answer check_errors
  listen_loop-last {x} {r} {s'} f errors changed answers pre s lawful w inside same has_changed run
        w' shut h =
      let ((maxfd, fds), watched, (all, _, _)) = Returns-ok (watch_loop_bounds w inside) in
      let ds = pre ++ x ∷ [] in
      let members = subst (λ l. Members l ds) (sym all) (Members-numbers [] ds) in
      let round =
        dispatch_loop-from f changed fds [] pre (locked_state s)
          (subst (λ l. Watches l ds) (sym (lawful _ s)) (record { sane = w.sane; held = w.held }))
          inside members same has_changed run w' h in
      let t = after_event c (r, s') in
      let still : is_shutdown (c.listener (unlocked_state t)) ≡ true =
        subst (λ l. is_shutdown l ≡ true) (sym (lawful _ t)) shut in
      rw (watched, listen_loop) (rw (round, ◌>>=◌) (rw (still, check_errors)))

  -- The state in which the loop starts.
  abbrev pub started : S → S
  started s =
      c.put (log_event (message_of (pos 6) success "Starting listening...") (c.listener s)) s

  -- At the last position, a descriptor that is not in the set.
  dispatch_loop-absent :
      (x : Descriptor) (f : ℕ) (changed : ℤ → Bool) (fds : List ℤ) (done : List Descriptor) (s : S)
      → Watches (c.listener s) (done ++ x ∷ [])
      → beyond_set x.fd ≡ false
      → is_member x.fd fds ≡ false
      → dispatch_loop c (suc (suc f)) (length done) changed fds s ≡ ok s
  unfolding dispatch_loop
  dispatch_loop-absent x f changed fds done s w low absent =
      let e = length-ltb (length done) w.held in
      let d =
        lt→ltb (length done) (length (done ++ x ∷ []))
          (omega (arith, length-append done (x ∷ []))) in
      let behind =
        le→ltb_false (suc (length done)) (length (done ++ x ∷ []))
          (omega (arith, length-append done (x ∷ []))) in
      let e' = length-ltb (suc (length done)) w.held in
      let isset : fd_isset changed fds x.fd ≡ ok false =
        fd_isset_absent changed fds x.fd low absent in
      rw (e, dispatch_loop)
        (rw (d, at_index_lem done x [] w.held)
          (rw (isset, ◌>>=◌) (rw (e', dispatch_loop) (rw behind))))

  -- The loop over the descriptors when the only descriptor that is watched has changed, and its event
  -- adds one behind it: that one is not in the set.
  dispatch_loop-added :
      {d x : Descriptor} {r : MsrvResult} {s' : S} (f : ℕ) (changed : ℤ → Bool) (s : S)
      → Watches (c.listener s) (d ∷ [])
      → InSet (d ∷ x ∷ [])
      → (d.fd ==ℤ x.fd) ≡ false
      → changed d.fd ≡ true
      → c.descriptor_event d.fd d.object s ≡ ok (r, s')
      → Watches (c.listener (after_event c (r, s'))) (d ∷ x ∷ [])
      → dispatch_loop c (suc (suc (suc f))) 0 changed (d.fd ∷ []) s ≡ ok (after_event c (r, s'))
  unfolding dispatch_loop is_member
  dispatch_loop-added {d} {x} {r} {s'} f changed s w (low, (low_x, _)) new has_changed run w' =
      let e = length-ltb 0 w.held in
      let first = fd_isset_lem changed (d.fd ∷ []) d.fd low (rw (==ℤ_refl d.fd) refl) in
      rw (e, dispatch_loop)
        (rw (at_index_lem [] d [] w.held) (
          rw (first, dispatch_loop)
            (rw (has_changed, ◌>>=◌)
              (rw run (
                dispatch_loop-absent x f changed (d.fd ∷ []) (d ∷ []) (after_event c (r, s')) w'
                  low_x (rw new refl))))))

  -- A round of that kind, without a shutdown: the loop goes on.
  pub listen_loop-added :
      {d x : Descriptor} {r : MsrvResult} {s' : S} (f errors : ℕ) (changed : ℤ → Bool)
      (answers : List Answer) (s : S)
      → IsInheritor c
      → Watches (c.listener s) (d ∷ [])
      → InSet (d ∷ x ∷ [])
      → (d.fd ==ℤ x.fd) ≡ false
      → changed d.fd ≡ true
      → c.descriptor_event d.fd d.object (locked_state s) ≡ ok (r, s')
      → Watches (c.listener (after_event c (r, s'))) (d ∷ x ∷ [])
      → is_shutdown (c.listener (after_event c (r, s'))) ≡ false
      → listen_loop c (suc (suc (suc f))) (ready changed ∷ answers) errors s
        ≡ listen_loop c (suc (suc (suc f))) answers 0 (unlocked_state (after_event c (r, s')))
  unfolding listen_loop handle_answer check_errors
  listen_loop-added {d} {x} {r} {s'} f errors changed answers s lawful w (low, inside) new
        has_changed run w' open_still =
      let ((maxfd, fds), watched, (all, _, _)) = Returns-ok (watch_loop_bounds w (low, tt)) in
      let t = after_event c (r, s') in
      let round =
        ap (λ set. dispatch_loop c (suc (suc (suc f))) 0 changed set (locked_state s)) all
        ∙ dispatch_loop-added {x = x} f changed (locked_state s)
            (subst (λ l. Watches l (d ∷ [])) (sym (lawful _ s))
              (record { sane = w.sane; held = w.held }))
            (low, inside) new has_changed run w' in
      let still : is_shutdown (c.listener (unlocked_state t)) ≡ false =
        subst (λ l. is_shutdown l ≡ false) (sym (lawful _ t)) open_still in
      rw watched (rw (round, ◌>>=◌) (rw (still, check_errors)))

  -- The end of listen, when the shutdown of the class leaves no descriptor.
  pub listen-ends :
      {t : S} (Q : S → Type 0) (f : ℕ) (answers : List Answer) (s : S)
      → listen_loop c f answers 0 (started s) ≡ ok t
      → Returns (λ (_, s₂). Watches (c.listener s₂) [] × Q s₂) (c.on_shutdown t)
      → Returns
          (λ (result, s₂, fds). (result ≡ success) × (fds ≡ []) × Watches (c.listener s₂) [] × Q s₂)
          (listen c f answers s)
  unfolding listen
  listen-ends Q f answers s loop ends = rw loop (
      Returns-bind ends λ (r₂, s₂) (w₂, q).
        rw
          (
            close_loop-numbers (rounds (c.listener s₂).descriptors) [] [] w₂.held
                (omega (arith, enough w₂)),
            length-ltb 0 w₂.held,
          )
          (returns (refl, refl, w₂, q)))
