-- ===== src/Container/Array/Remove.antt =====
-- Array::remove of an item that is there, against the list of items.
use magicserver.Prelude.{
  ℕ, suc, ◌+◌, ◌≡◌, refl, ap, ◌∙◌, sym, subst, inl, inr, none, some, List, [], ◌∷◌, ◌++◌, arith,
  pos, -ℤ-pos, ltb_ℤ-pos, ==ℤ-pos, ne→==_false, le→ltb_false, map-append, length, replicate,
  length-append, Returns, returns, Returns-mono, ◌⊎◌, fault, uninitialised, ◌≤◌, ◌<◌, get_elem?,
  le→leb, leb-false, get_elem?-append, get_elem?-replicate,
}
use magicserver.Errors.{MsrvResult, success}
use magicserver.Lock.{ThreadLock, unlock-lock}
use magicserver.Memory.{Ptr, Memory, read}
use magicserver.Memory.Laws.{Holds, IsMemory, free_ok, deref_ok}
use magicserver.Memory.Fresh.{Replaced, Fresh-free, free-Replaced}
use magicserver.Container.Array.{Array, remove, at_index}
use magicserver.Container.Array.Contents.{
  Cells, full, Stored, IsArray, length-full, counted, Cells-Holds_pos, Holds-Cells,
}
use magicserver.Container.Array.Copies.{
  fields, upper, copy_lower-Fresh, copy_upper-Fresh, length-upper, malloc_two,
}

module _ {A : Type 0} where
  abbrev pub Removed : Memory A → Array → List A → List A → MsrvResult × Array × Memory A → Type 0
  Removed m a pre post (r, a', m') =
      (r ≡ success)
      × (a'.item_count ≡ pos (length pre + length post))
      × Cells m' a'.items (full pre ++ upper pre post)
      × (a'.thread_lock ≡ a.thread_lock)
      × Replaced a.items m m'

  -- Two items at least: a new block is filled.
  remove-Holds :
      {m : Memory A} {p : Ptr} (pre : List A) (x : A) (post : List A) (l : ThreadLock)
      → IsMemory m
      → Holds m p (full pre ++ some x ∷ full post)
      → 0 < length pre + length post
      → let a = fields p (length pre + suc (length post)) l in
        Returns (Removed m a pre post) (remove (pos (length pre)) a m)
  unfolding remove
  remove-Holds {m} {p} pre x post l sane held many =
      let n : ℕ = length pre + suc (length post) in
      let f = malloc_two (length pre) (length post) m sane in
      let (m₂, e₂, f₂) = copy_lower-Fresh pre x post n l (replicate (length post) none) held f in
      let (m₃, e₃, f₃) = copy_upper-Fresh pre x post n l held refl f₂ in
      let freed = free_ok (f₃.kept p _ held) in
      let z = Fresh-free f₃ held in
      rw
        (
          ltb_ℤ-pos n (length pre),
          le→ltb_false n (length pre) (omega arith),
          ==ℤ-pos n 1,
          ne→==_false n 1 (omega arith),
          -ℤ-pos n 1 (omega arith),
          e₂,
          e₃,
          freed,
        )
        (returns (
          refl,
          ap pos (omega arith),
          Holds-Cells (full pre ++ upper pre post) z.0 (
              omega (
                arith,
                length-append (full pre) (upper pre post),
                length-full pre,
                length-upper pre post,
              )),
          unlock-lock l,
          z.1,
        ))

  remove-Stored :
      {m : Memory A} (pre : List A) (x : A) (post : List A) (p : Ptr) (l : ThreadLock)
      → IsMemory m
      → Stored m p (pre ++ x ∷ post)
      → let a = fields p (length pre + suc (length post)) l in
        Returns (Removed m a pre post) (remove (pos (length pre)) a m)
  unfolding remove
  remove-Stored [] x [] p l sane is =
      rw (ltb_ℤ-pos 1 0, ==ℤ-pos 1 1, -ℤ-pos 1 1 (omega arith), free_ok is)
        (returns (refl, refl, refl, unlock-lock l, free-Replaced sane is))
  remove-Stored [] x (y ∷ post) p l sane is = remove-Holds [] x (y ∷ post) l sane is (omega arith)
  remove-Stored {m} (y ∷ pre) x post p l sane is =
      remove-Holds (y ∷ pre) x post l sane (rw (map-append some (y ∷ pre) (x ∷ post)) at is)
        (omega arith)

  -- Array::remove at a position within the array succeeds, releases its lock and frees the old block,
  -- changing no other. The array then counts one item less, and its block holds the items below the
  -- position and then, if these are at most as many as the items above it, the latter; if they are
  -- more, cells that were never written.
  pub remove_middle :
      {m : Memory A} {a : Array} (pre : List A) (x : A) (post : List A)
      → IsMemory m
      → IsArray m a (pre ++ x ∷ post)
      → Returns (Removed m a pre post) (remove (pos (length pre)) a m)
  remove_middle {m} {a} pre x post sane is =
      subst (λ c. Returns (Removed m c pre post) (remove (pos (length pre)) c m)) (sym named)
        (remove-Stored pre x post a.items a.thread_lock sane is.stored)
    where
      named : a ≡ fields a.items (length pre + suc (length post)) a.thread_lock
      named = counted is ∙ ap (λ n. fields a.items n a.thread_lock) (length-append pre (x ∷ post))

  upper_nil : (pre : List A) → upper pre [] ≡ []
  upper_nil pre = ground arith

  -- The cells above the removed item when they are not copied.
  unwritten :
      (pre post : List A) (j : ℕ)
      → length post < length pre
      → j < length post
      → get_elem? (full pre ++ upper pre post) (length pre + j) ≡ some none
  unwritten pre post j few h =
      rw (leb-false (length pre) (length post) few, ← length-full pre)
        (get_elem?-append (full pre) (replicate (length post) none) j
          ∙ get_elem?-replicate (length post) j none h)

  -- Array::remove takes just the one item out, its order kept, if it is the last one or at most half
  -- of the other items stand below it.
  pub remove-IsArray :
      {m : Memory A} {a : Array} (pre : List A) (x : A) (post : List A)
      → IsMemory m
      → IsArray m a (pre ++ x ∷ post)
      → (length pre ≤ length post) ⊎ (post ≡ [])
      → Returns
          (λ (r, a', m').
            (r ≡ success)
            × IsArray m' a' (pre ++ post)
            × IsMemory m'
            × (a'.thread_lock ≡ a.thread_lock))
          (remove (pos (length pre)) a m)
  remove-IsArray {m} pre x post sane is room =
      Returns-mono (remove_middle pre x post sane is) λ (r, a', m') (e, n, cells, l, replaced). (
        e,
        record {
          count = n ∙ ap pos (sym (length-append pre post));
          stored = subst (Cells m' a'.items) (kept room ∙ sym (map-append some pre post)) cells;
        },
        replaced.sane,
        l,
      )
    where
      kept :
          (length pre ≤ length post) ⊎ (post ≡ [])
          → full pre ++ upper pre post ≡ full pre ++ full post
      kept (inl h) = rw (le→leb (length pre) (length post) h)
      kept (inr e) = rw (e, upper_nil pre)

  -- Where more items stand below the removed one than above it, and there are items above it, these
  -- are lost: every position that should hold one of them reads storage that was never written.
  pub remove_loses :
      {m : Memory A} {a : Array} (pre : List A) (x : A) (post : List A) (j : ℕ)
      → IsMemory m
      → IsArray m a (pre ++ x ∷ post)
      → length post < length pre
      → j < length post
      → Returns
          (λ (r, a', m').
            (r ≡ success) × (at_index a' (pos (length pre + j)) m' ≡ fault uninitialised))
          (remove (pos (length pre)) a m)
  unfolding at_index read
  remove_loses pre x post j sane is few h =
      Returns-mono (remove_middle pre x post sane is) λ (r, a', m') (e, n, cells, l, _). (
        e,
        rw (
          deref_ok (
              Cells-Holds_pos (full pre ++ upper pre post) cells
                (omega (arith, length-append (full pre) (upper pre post), length-full pre))),
          unwritten pre post j few h,
        ),
      )
