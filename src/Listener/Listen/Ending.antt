-- ===== src/Listener/Listen/Ending.antt =====
-- The end of listen: the shutdown of the class that inherits, and what is still open.
use magicserver.Prelude.{
  Bool, true, if◌then◌else◌, ℕ, zero, suc, ◌<◌, ◌≡◌, refl, sym, ap, subst, ◌∙◌, false, List, [],
  ◌∷◌, ◌++◌, append_assoc, replicate, arith, pos, ltb_ℤ, lt→ltb, le→ltb_false, length,
  length-append, ok, Returns, returns, Returns-bind,
}
use magicserver.Errors.{success}
use magicserver.Memory.{Memory}
use magicserver.Container.Array.{Array}
use magicserver.Container.Array.Contents.{IsArray}
use magicserver.Container.Array.Iteration.{at_index_lem}
use magicserver.Listener.{Listener, Descriptor, rounds, is_shutdown}
use magicserver.Listener.Removal.{Watches, enough, length-ltb}
use magicserver.Listener.Listen.{Answer, failed, Inheritor, IsInheritor, close_loop, listen}
use magicserver.Listener.Listen.Errors.{listen_loop-failed}
use magicserver.Listener.Listen.Watching.{InSet, numbers}

pub close_loop-numbers :
    {m : Memory Descriptor} {a : Array} (f : ℕ) (done rest : List Descriptor)
    → IsArray m a (done ++ rest)
    → length rest < f
    → close_loop f (length done) a m ≡ ok (numbers rest)
unfolding close_loop
close_loop-numbers zero done rest is h = absurd (omega arith)
close_loop-numbers (suc f) done [] is h =
    let e = length-ltb (length done) is in
    let d =
      le→ltb_false (length done) (length (done ++ [])) (omega (arith, length-append done [])) in
    rw (e, close_loop) (rw d)
close_loop-numbers {m} {a} (suc f) done (x ∷ rest) is h =
    let e = length-ltb (length done) is in
    let d =
      lt→ltb (length done) (length (done ++ x ∷ rest))
        (omega (arith, length-append done (x ∷ rest))) in
    let count : suc (length done) ≡ length (done ++ x ∷ []) =
      omega (arith, length-append done (x ∷ [])) in
    rw (e, close_loop)
      (rw (d, at_index_lem done x rest is)
        (rw count (
          rw (
            close_loop-numbers f (done ++ x ∷ []) rest
              (subst (IsArray m a) (sym (append_assoc done (x ∷ []) rest)) is) (omega arith)))))

module _ {S : Type 0} (c : Inheritor S) (ds open_ds : List Descriptor) (lawful : IsInheritor c)
    (inside : InSet ds) (P Q : S → Type 0) (kept : (l : Listener) (s : S) → P s → P (c.put l s))
    (kept_after : (l : Listener) (s : S) → Q s → Q (c.put l s))
    (shuts : (s : S)
      → Watches (c.listener s) ds
      → P s
      → Returns (λ (_, s'). Watches (c.listener s') open_ds × Q s') (c.on_shutdown s)) where
  ends :
      (b : Bool) (l : Listener) (s : S)
      → Watches (c.listener s) open_ds
      → Q s
      → Watches l open_ds
      → (Watches (c.listener (if b then c.put l s else s)) open_ds) × Q (if b then c.put l s else s)
  ends true l s w q w' = (subst (λ k. Watches k open_ds) (sym (lawful l s)) w', kept_after l s q)
  ends false l s w q w' = (w, q)

  -- When select fails eleven times in a row from the start, on a listener that is not shutting down
  -- and whose descriptors may be put into a set, and the class's shutdown, in a state with the
  -- property `P`, leaves the descriptors `open_ds` open and the property `Q`, where no change of
  -- the listener takes either property away: listen ends and returns success, whatever select would
  -- answer then, has closed exactly those descriptors, in their order, and leaves the property `Q`.
  pub listen-failed :
      (f : ℕ) (rest : List Answer) (s : S)
      → Watches (c.listener s) ds
      → is_shutdown (c.listener s) ≡ false
      → P s
      → Returns
          (λ (r, s', closed).
            (r ≡ success) × (closed ≡ numbers open_ds) × Watches (c.listener s') open_ds × Q s')
          (listen c f (replicate 11 failed ++ rest) s)
  unfolding listen
  listen-failed f rest s w e p =
      Returns-bind
        (listen_loop-failed c ds lawful inside P kept f rest _
          (subst (λ l. Watches l ds) (sym (lawful _ s)) (record { sane = w.sane; held = w.held }))
          (ap is_shutdown (lawful _ s) ∙ e) (kept _ s p))
        λ s₁ (w₁, _, p₁). Returns-bind (shuts s₁ w₁ p₁) λ (r, s₂) (w₂, q₂).
          rw
            (close_loop-numbers (rounds (c.listener s₂).descriptors) [] open_ds w₂.held
              (omega (arith, enough w₂)))
            (let (w₃, q₃) =
                ends (ltb_ℤ (pos 0) (c.listener s₂).descriptors.item_count) _ s₂ w₂ q₂
                  (record { sane = w₂.sane; held = w₂.held }) in
              returns (refl, refl, w₃, q₃))
