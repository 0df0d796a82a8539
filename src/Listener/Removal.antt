-- ===== src/Listener/Removal.antt =====
-- Listener::removeDescriptor against the list of descriptors.
pub mod Stale
use magicserver.Prelude.{
  ℕ, zero, suc, ◌+◌, ◌≤◌, ◌<◌, ◌≡◌, refl, sym, ap, subst, ◌∙◌, ◌⊎◌, true, false, List, [], ◌∷◌,
  ◌++◌, append_assoc, arith, ℤ, pos, pos_part, ltb_ℤ, ltb_ℤ-pos, ◌==ℤ◌, lt→ltb, le→ltb_false,
  length, length-append, ok, ◌>>=◌, Returns, returns, Returns-bind, ltb,
}
use magicserver.Errors.{success, descriptor_not_found}
use magicserver.Lock.{unlock-lock}
use magicserver.Memory.{Memory}
use magicserver.Memory.Laws.{IsMemory}
use magicserver.Container.Array.{Array, remove}
use magicserver.Container.Array.Contents.{IsArray}
use magicserver.Container.Array.Iteration.{at_index_lem}
use magicserver.Container.Array.Remove.{remove-IsArray}
use magicserver.Listener.{Descriptor, Listener, remove_loop, rounds, remove_descriptor}

-- None of the descriptors has the number `fd`.
abbrev pub Lacks : ℤ → List Descriptor → Type 0
Lacks fd [] = Unit {0}
Lacks fd (d ∷ ds) = ((d.fd ==ℤ fd) ≡ false) × Lacks fd ds

-- The descriptors of a listener are these.
pub record Watches (l : Listener) (ds : List Descriptor) : Type 0 where
  pub sane : IsMemory l.storage
  pub held : IsArray l.storage l.descriptors ds

pub length-ltb :
    {m : Memory Descriptor} {a : Array} {ds : List Descriptor} (i : ℕ)
    → IsArray m a ds
    → ltb_ℤ (pos i) a.item_count ≡ ltb i (length ds)
length-ltb i is = ap (ltb_ℤ (pos i)) is.count ∙ ltb_ℤ-pos i _

remove_loop-absent :
    {m : Memory Descriptor} {a : Array} (f : ℕ) (fd : ℤ) (done rest : List Descriptor)
    → IsArray m a (done ++ rest)
    → Lacks fd rest
    → length rest < f
    → remove_loop f (length done) fd a m ≡ ok (false, a, m)
unfolding remove_loop
remove_loop-absent zero fd done rest is out h = absurd (omega arith)
remove_loop-absent (suc f) fd done [] is out h =
    let e = length-ltb (length done) is in
    let d =
      le→ltb_false (length done) (length (done ++ [])) (omega (arith, length-append done [])) in
    rw (e, remove_loop) (rw d)
remove_loop-absent {m} {a} (suc f) fd done (x ∷ rest) is (ne, out) h =
    let e = length-ltb (length done) is in
    let d =
      lt→ltb (length done) (length (done ++ x ∷ rest))
        (omega (arith, length-append done (x ∷ rest))) in
    let ih =
      remove_loop-absent f fd (done ++ x ∷ []) rest
        (subst (IsArray m a) (sym (append_assoc done (x ∷ []) rest)) is) out (omega arith) in
    rw (e, remove_loop)
      (rw (d, at_index_lem done x rest is)
        (rw (ne, ◌>>=◌)
          (ap (λ i. remove_loop f i fd a m) {x = suc (length done)}
              (omega (arith, length-append done (x ∷ [])))
            ∙ ih)))

-- The loop stops at the first match, and removes it.
pub remove_loop-found :
    {m : Memory Descriptor} {a : Array} (f : ℕ) (fd : ℤ) (done mid : List Descriptor)
    (d : Descriptor) (post : List Descriptor)
    → IsArray m a (done ++ (mid ++ d ∷ post))
    → Lacks fd mid
    → (d.fd ==ℤ fd) ≡ true
    → length mid < f
    → remove_loop f (length done) fd a m
      ≡ (remove (pos (length done + length mid)) a m >>= λ (_, a', m'). ok (true, a', m'))
unfolding remove_loop
remove_loop-found zero fd done mid d post is out eq h = absurd (omega arith)
remove_loop-found {m} {a} (suc f) fd done [] d post is out eq h =
    let e = length-ltb (length done) is in
    let w =
      lt→ltb (length done) (length (done ++ d ∷ post))
        (omega (arith, length-append done (d ∷ post))) in
    rw (e, remove_loop)
      (rw (w, at_index_lem done d post is)
        (rw (eq, ◌>>=◌)
          (ap (λ i. remove (pos i) a m >>= λ (_, a', m'). ok (true, a', m')) {x = length done}
            {y = length done + 0} (omega arith))))
remove_loop-found {m} {a} (suc f) fd done (x ∷ mid) d post is (ne, out) eq h =
    let e = length-ltb (length done) is in
    let w =
      lt→ltb (length done) (length (done ++ x ∷ (mid ++ d ∷ post)))
        (omega (arith, length-append done (x ∷ (mid ++ d ∷ post)))) in
    let ih =
      remove_loop-found f fd (done ++ x ∷ []) mid d post
        (subst (IsArray m a) (sym (append_assoc done (x ∷ []) (mid ++ d ∷ post))) is) out eq
        (omega arith) in
    rw (e, remove_loop)
      (rw (w, at_index_lem done x (mid ++ d ∷ post) is)
        (rw (ne, ◌>>=◌)
          (ap (λ i. remove_loop f i fd a m) {x = suc (length done)}
              (omega (arith, length-append done (x ∷ [])))
            ∙ ih
            ∙ ap (λ i. remove (pos i) a m >>= λ (_, a', m'). ok (true, a', m'))
                {x = length (done ++ x ∷ []) + length mid} {y = length done + suc (length mid)}
                (omega (arith, length-append done (x ∷ []))))))

pub enough :
    {l : Listener} {ds : List Descriptor} → Watches l ds → rounds l.descriptors ≡ suc (length ds)
enough w = ap (λ n. suc (pos_part n)) w.held.count

-- removeDescriptor of a number that no descriptor has returns MSRVERR_DESCRIPTOR_NOT_FOUND and leaves
-- the listener as it was.
pub remove_descriptor-absent :
    {l : Listener} {ds : List Descriptor} (fd : ℤ)
    → Watches l ds
    → Lacks fd ds
    → remove_descriptor fd l ≡ ok (descriptor_not_found, l)
unfolding remove_descriptor
remove_descriptor-absent {l} {ds} fd w out = rw (
  remove_loop-absent (rounds l.descriptors) fd [] ds w.held out (omega (arith, enough w)),
  unlock-lock l.thread_lock,
)

-- removeDescriptor takes out the first descriptor with the given number, if it is the last one of all
-- or no more descriptors stand before it than behind it: it then returns success, keeps the others in
-- their order, and changes neither the lock nor any other part of the listener.
pub remove_descriptor-Watches :
    {l : Listener} (fd : ℤ) (pre : List Descriptor) (d : Descriptor) (post : List Descriptor)
    → Watches l (pre ++ d ∷ post)
    → Lacks fd pre
    → (d.fd ==ℤ fd) ≡ true
    → (length pre ≤ length post) ⊎ (post ≡ [])
    → Returns
        (λ (r, l').
          (r ≡ success)
          × Watches l' (pre ++ post)
          × (l' ≡ record l { descriptors = l'.descriptors; storage = l'.storage }))
        (remove_descriptor fd l)
unfolding remove_descriptor
remove_descriptor-Watches {l} fd pre d post w out eq room =
    rw
      (
        remove_loop-found (rounds l.descriptors) fd [] pre d post w.held out eq
            (omega (arith, enough w, length-append pre (d ∷ post))),
        unlock-lock l.thread_lock,
      )
      (Returns-bind taken λ (found, a, m) (yes_found, is, sane).
        returns (rw yes_found, record { sane = sane; held = is }, refl))
  where
    taken :
        Returns
          (λ (found, a, m). (found ≡ true) × IsArray m a (pre ++ post) × IsMemory m)
          (remove (pos (0 + length pre)) l.descriptors l.storage >>= λ (_, a', m').
            ok (true, a', m'))
    taken =
        Returns-bind
          (subst
            (λ i.
              Returns
                (λ (r, a', m').
                  (r ≡ success)
                  × IsArray m' a' (pre ++ post)
                  × IsMemory m'
                  × (a'.thread_lock ≡ l.descriptors.thread_lock))
                (remove (pos i) l.descriptors l.storage))
            {x = length pre} {y = 0 + length pre} (omega arith)
            (remove-IsArray pre d post w.sane w.held room))
          λ (r, a', m') (_, is, sane, _). returns (refl, is, sane)
