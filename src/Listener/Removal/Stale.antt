-- ===== src/Listener/Removal/Stale.antt =====
-- An iterator over a listener's descriptors that was made before one of them is removed.
use magicserver.Prelude.{
  ◌+◌, ◌≡◌, ◌∙◌, Bool, true, List, [], ◌∷◌, ◌++◌, arith, ℤ, pos, ◌==ℤ◌, length, length-append, ok,
  fault, dangling, ◌>>=◌, subst, Returns, returns, Returns-bind, Returns-ok, sym,
}
use magicserver.Memory.{Memory}
use magicserver.Container.Array.{Array, get, remove}
use magicserver.Container.Array.Iteration.{stale_get}
use magicserver.Listener.{Descriptor, Listener, rounds, remove_descriptor}
use magicserver.Listener.Removal.{Lacks, Watches, enough, remove_loop-found}

-- Every use of an iterator over the array uses freed storage.
abbrev pub IsStale : Array → Memory Descriptor → Type 0
IsStale a m = (at : ℤ) → get (record { position = at; array = a }) m ≡ fault dangling

ok_injective : {A : Type 0} {a b : A} → ok a ≡ ok b → a ≡ b
ok_injective h = cc

module _ {l : Listener} (fd : ℤ) (pre : List Descriptor) (d : Descriptor) (post : List Descriptor)
    (w : Watches l (pre ++ d ∷ post)) where
  -- The iterator may stand anywhere.
  remove-IsStale :
      Returns
        (λ (r, a, m). IsStale l.descriptors m)
        (remove (pos (length pre)) l.descriptors l.storage)
  remove-IsStale =
      let ((r, a, m), run, _) = Returns-ok ((stale_get pre d post d (pos 0) w.sane w.held).1) in
      rw run (
        returns (λ at.
          let (_, run', stale) = Returns-ok ((stale_get pre d post d at w.sane w.held).1) in
          subst
            (λ (t : ℤ × Array × Memory Descriptor).
              get (record { position = at; array = l.descriptors }) t.2 ≡ fault dangling)
            (ok_injective (sym run' ∙ run)) stale))

  pub remove_descriptor-IsStale :
      Lacks fd pre
      → (d.fd ==ℤ fd) ≡ true
      → Returns (λ (r, l'). IsStale l.descriptors l'.storage) (remove_descriptor fd l)
  unfolding remove_descriptor
  remove_descriptor-IsStale out eq =
      rw
        (remove_loop-found (rounds l.descriptors) fd [] pre d post w.held out eq
          (omega (arith, enough w, length-append pre (d ∷ post))))
        (Returns-bind taken λ (found, a, m) st. returns st)
    where
      taken :
          Returns {A = Bool × Array × Memory Descriptor}
            (λ (b, a, m). IsStale l.descriptors m)
            (remove (pos (0 + length pre)) l.descriptors l.storage >>= λ (_, a', m').
              ok (true, a', m'))
      taken =
          Returns-bind
            (subst
              (λ i.
                Returns (λ (r, a, m). IsStale l.descriptors m)
                  (remove (pos i) l.descriptors l.storage))
              {x = length pre} {y = 0 + length pre} (omega arith) remove-IsStale)
            λ (r, a, m) st. returns st
