-- ===== src/Container/Array/Iteration.antt =====
-- A walk with an Array::Iterator, and an iterator that is held across a change.
use magicserver.Prelude.{
  ℕ, zero, suc, ◌+◌, ◌≡◌, ◌≢◌, ap, ◌∙◌, sym, subst, not, some, List, [], ◌∷◌, ◌++◌, map-append,
  append_assoc, arith, ℤ, pos, +ℤ-pos, ltb_ℤ-pos, length, length-append, lt→ltb, le→ltb_false,
  get_elem?, get_elem?-append, ok, fault, dangling, ◌<◌, Returns, Returns-mono, ◌+ℤ◌, ltb_ℤ, ltb,
}
use magicserver.Memory.{null, Memory, read}
use magicserver.Memory.Laws.{Holds, IsMemory, read_ok, deref_freed}
use magicserver.Memory.Fresh.{Replaced}
use magicserver.Container.Array.{Array, iterate, get, next, exhausted, visit, at_index, add, remove}
use magicserver.Container.Array.Contents.{full, IsArray, length-full, Cells-Holds}
use magicserver.Container.Array.Add.{add-append}
use magicserver.Container.Array.Remove.{remove_middle}

pub exhausted-ltb :
    (a : Array) (i n : ℕ)
    → a.item_count ≡ pos n
    → exhausted (record { position = pos i; array = a }) ≡ not (ltb i n)
unfolding exhausted
exhausted-ltb a i n e = ap not (ap (ltb_ℤ (pos i)) e ∙ ltb_ℤ-pos i n)

module _ {A : Type 0} where
  -- operator[] reads the item at its position.
  pub at_index_lem :
      {m : Memory A} {a : Array} (pre : List A) (x : A) (post : List A)
      → IsArray m a (pre ++ x ∷ post)
      → at_index a (pos (length pre)) m ≡ ok x
  unfolding at_index
  at_index_lem {m} {a} pre x post is = read_ok (length pre) held found
    where
      held : Holds m a.items (full pre ++ some x ∷ full post)
      held =
          Cells-Holds (full pre) (some x) (full post)
            (rw (map-append some pre (x ∷ post)) at is.stored)

      found : get_elem? (full pre ++ some x ∷ full post) (length pre) ≡ some (some x)
      found =
          ap (get_elem? (full pre ++ some x ∷ full post)) {x = length pre}
            {y = length (full pre) + 0} (omega (arith, length-full pre))
          ∙ get_elem?-append (full pre) (some x ∷ full post) 0

  -- One step further in the list is one step further in the array.
  moved :
      (m : Memory A) (a : Array) (f : ℕ) (pre : List A) (x : A) {rest : List A}
      → visit f (record { position = pos (length (pre ++ x ∷ [])); array = a }) m ≡ ok rest
      → visit f (record { position = pos (length pre) +ℤ pos 1; array = a }) m ≡ ok rest
  moved m a f pre x ih =
      ap (λ p. visit f (record { position = p; array = a }) m) {x = pos (length pre) +ℤ pos 1}
        (+ℤ-pos (length pre) 1 ∙ ap pos (omega (arith, length-append pre (x ∷ []))))
      ∙ ih

  visit_rest :
      {m : Memory A} {a : Array} (f : ℕ) (pre rest : List A)
      → IsArray m a (pre ++ rest)
      → length rest < f
      → visit f (record { position = pos (length pre); array = a }) m ≡ ok rest
  unfolding visit get next
  visit_rest zero pre rest is h = absurd (omega arith)
  visit_rest {a} (suc f) pre [] is h =
      let n : ℕ = length (pre ++ []) in
      let e = exhausted-ltb a (length pre) n is.count in
      let d = le→ltb_false (length pre) n (omega (arith, length-append pre [])) in
      rw (e, visit) (rw d)
  visit_rest {m} {a} (suc f) pre (x ∷ rest) is h =
      let n : ℕ = length (pre ++ x ∷ rest) in
      let e = exhausted-ltb a (length pre) n is.count in
      let d = lt→ltb (length pre) n (omega (arith, length-append pre (x ∷ rest))) in
      let ih =
        visit_rest f (pre ++ x ∷ []) rest
          (subst (IsArray m a) (sym (append_assoc pre (x ∷ []) rest)) is) (omega arith) in
      rw (e, visit) (rw (d, at_index_lem pre x rest is, moved m a f pre x ih))

  -- A loop over an array's iterator gets all its items, in order, and ends.
  pub visit-IsArray :
      {m : Memory A} {a : Array} {xs : List A} (f : ℕ)
      → IsArray m a xs
      → length xs < f
      → visit f (iterate a) m ≡ ok xs
  unfolding iterate
  visit-IsArray {xs} f is h = visit_rest f [] xs is h

  stale :
      {m n : Memory A} (a : Array) (at : ℤ)
      → a.items ≢ null
      → Replaced a.items m n
      → get (record { position = at; array = a }) n ≡ fault dangling
  unfolding get at_index read
  stale {n} a at ne r = rw (deref_freed n a.items ne (r.freed ne))

  -- An iterator of an array that has items, taken before another is added, or one is removed at a
  -- position within the array, points into freed storage afterwards: at any position, get uses a
  -- block that is gone.
  pub stale_get :
      {m : Memory A} {a : Array} (pre : List A) (x : A) (post : List A) (item : A) (at : ℤ)
      → IsMemory m
      → IsArray m a (pre ++ x ∷ post)
      → Returns
          (λ (r, a', n). get (record { position = at; array = a }) n ≡ fault dangling)
          (add item a m)
        × Returns
            (λ (r, a', n). get (record { position = at; array = a }) n ≡ fault dangling)
            (remove (pos (length pre)) a m)
  stale_get {m} {a} pre x post item at sane is = (
    Returns-mono (add-append item sane is) (λ (r, a', n) (_, _, _, p). stale a at ne p),
    Returns-mono (remove_middle pre x post sane is) (λ (r, a', n) (_, _, _, _, p). stale a at ne p),
  )
    where
      ne : a.items ≢ null
      ne =
          (Cells-Holds (full pre) (some x) (full post)
            (rw (map-append some pre (x ∷ post)) at is.stored)).ne_null
