-- ===== src/Listener/Listen/Errors.antt =====
-- Listener::listen when select keeps failing.
use magicserver.Prelude.{
  ℕ, zero, suc, ◌+◌, ◌≤◌, ◌<◌, ◌≡◌, refl, sym, ap, subst, ◌∙◌, Bool, true, false, List, ◌++◌,
  replicate, arith, ℤ, lt→ltb, le→ltb_false, Returns, returns, Returns-bind,
}
use magicserver.Listener.{Descriptor, Listener, is_shutdown, start_shutdown}
use magicserver.Listener.Removal.{Watches}
use magicserver.Listener.Listen.Watching.{InSet, watch_loop_bounds}
use magicserver.Listener.Listen.{
  Answer, failed, Inheritor, IsInheritor, handle_answer, check_errors, listen_loop,
}

module _ {S : Type 0} (c : Inheritor S) (ds : List Descriptor) (lawful : IsInheritor c)
    (inside : InSet ds) (P : S → Type 0) (kept : (l : Listener) (s : S) → P s → P (c.put l s)) where
  -- A listener that watches the descriptors, with its shutdown flag, in a state with `P`.
  abbrev Stands : Bool → S → Type 0
  Stands b s = Watches (c.listener s) ds × (is_shutdown (c.listener s) ≡ b) × P s

  put-Stands :
      {b : Bool} (l : Listener) (s : S)
      → Watches l ds
      → is_shutdown l ≡ b
      → P s
      → Stands b (c.put l s)
  put-Stands l s w e p =
      (subst (λ k. Watches k ds) (sym (lawful l s)) w, ap is_shutdown (lawful l s) ∙ e, kept l s p)

  failed-Stands :
      (f : ℕ) (fds : List ℤ) (errors : ℕ) (s : S)
      → Stands false s
      → Returns
          (λ (n, s₁). (n ≡ suc errors) × Stands false s₁)
          (handle_answer c f failed fds errors s)
  unfolding handle_answer
  failed-Stands f fds errors s (w, e, p) =
      returns (refl, put-Stands _ s (record { sane = w.sane; held = w.held }) e p)

  few-Stands :
      (errors : ℕ) (s : S) → errors ≤ 10 → Stands false s → Stands false (check_errors c errors s)
  unfolding check_errors
  few-Stands errors s h st = rw (le→ltb_false 10 errors h) st

  many-Stands :
      (errors : ℕ) (s : S) → 10 < errors → Stands false s → Stands true (check_errors c errors s)
  unfolding check_errors start_shutdown
  many-Stands errors s h (w, e, p) =
      let (w', _, p') = put-Stands {b = false} _ s (record { sane = w.sane; held = w.held }) e p in
      rw (lt→ltb 10 errors h) (put-Stands _ _ (record { sane = w'.sane; held = w'.held }) refl p')

  failing :
      (f k errors : ℕ) (rest : List Answer) (s : S)
      → Stands false s
      → errors + suc k ≡ 11
      → Returns (Stands true) (listen_loop c f (replicate (suc k) failed ++ rest) errors s)
  unfolding listen_loop
  failing f zero errors rest s st h = Returns-bind (watch_loop_bounds st.0 inside) λ (_, fds) _.
      Returns-bind (failed-Stands f fds errors s st) λ (n, s₁) (count, st₁).
        let (w, e, p) = many-Stands n s₁ (omega arith) st₁ in
        rw (e, listen_loop) (returns (w, e, p))
  failing f (suc k) errors rest s st h = Returns-bind (watch_loop_bounds st.0 inside) λ (_, fds) _.
      Returns-bind (failed-Stands f fds errors s st) λ (n, s₁) (count, st₁).
        let (w, e, p) = few-Stands n s₁ (omega arith) st₁ in
        rw (e, listen_loop) (failing f k n rest (check_errors c n s₁) (w, e, p) (omega arith))

  -- With all descriptors below FD_SETSIZE, in a state with a property that no change of the listener
  -- takes away: when select fails eleven times in a row from the start, whatever it would answer then,
  -- the loop of listen ends in a state of shutdown, with the descriptors and the property that it had.
  pub listen_loop-failed :
      (f : ℕ) (rest : List Answer) (s : S)
      → Watches (c.listener s) ds
      → is_shutdown (c.listener s) ≡ false
      → P s
      → Returns
          (λ s'. Watches (c.listener s') ds × (is_shutdown (c.listener s') ≡ true) × P s')
          (listen_loop c f (replicate 11 failed ++ rest) 0 s)
  listen_loop-failed f rest s w e p = failing f 10 0 rest s (w, e, p) (omega arith)
