-- ===== src/Container/Array/Add.antt =====
-- Array::add against the list of items.
use magicserver.Prelude.{
  ℕ, suc, ◌+◌, ◌≡◌, refl, ap, ◌∙◌, sym, subst, Option, none, some, List, [], ◌∷◌, ◌++◌, arith, pos,
  +ℤ-pos, ltb_ℤ-pos, ltb_ℤ, ◌+ℤ◌, map-append, append-nil, length, replicate, length-append,
  length-replicate, replicate_add, lt→ltb, Returns, returns,
}
use magicserver.Errors.{MsrvResult, success}
use magicserver.Lock.{ThreadLock, unlock-lock}
use magicserver.Memory.{Ptr, Memory, slice, splice}
use magicserver.Memory.Laws.{
  IsMemory, slice_middle, splice_middle, free-null, free_ok, memcpy_ok, write_ok,
}
use magicserver.Memory.Fresh.{Replaced, malloc-Fresh, Fresh-set, Fresh-free, Fresh-Replaced}
use magicserver.Container.Array.{Array, add}
use magicserver.Container.Array.Contents.{full, Stored, IsArray, length-full, counted}

module _ {A : Type 0} where
  -- The result of an append, and what became of the storage.
  abbrev pub Added : Memory A → Array → List A → MsrvResult × Array × Memory A → Type 0
  Added m a ys (r, a', m') =
      (r ≡ success) × IsArray m' a' ys × (a'.thread_lock ≡ a.thread_lock) × Replaced a.items m m'

  -- The old items go to the front of a block that is one longer,
  splice_lower :
      (xs : List A)
      → splice 0 (full xs) (replicate (length xs + 1) none) ≡ some (full xs ++ none ∷ [])
  splice_lower xs = rw (replicate_add {A = Option A} (length xs) 1 none) (
      splice_middle [] (replicate (length xs) none) (none ∷ []) (full xs) 0 refl
        (length-full xs ∙ sym (length-replicate (length xs) none)))

  -- and the new item behind them.
  splice_item :
      (xs : List A) (item : A)
      → splice (length xs) (some item ∷ []) (full xs ++ none ∷ []) ≡ some (full (xs ++ item ∷ []))
  splice_item xs item = rw (map-append) (
      splice_middle (full xs) (none ∷ []) [] (some item ∷ []) (length xs) (sym (length-full xs))
        refl)

  pub slice-full : (xs : List A) → slice 0 (length xs) (full xs) ≡ some (full xs)
  slice-full xs =
      ap (slice 0 (length xs)) (sym (append-nil (full xs)))
      ∙ slice_middle [] (full xs) [] 0 (length xs) refl (sym (length-full xs))

  add-Stored :
      {m : Memory A} (xs : List A) (item : A) (p : Ptr) (l : ThreadLock)
      → IsMemory m
      → Stored m p xs
      → let a : Array = record { items = p; item_count = pos (length xs); thread_lock = l } in
        Returns (Added m a (xs ++ item ∷ [])) (add item a m)
  unfolding add splice ltb_ℤ ◌+ℤ◌
  add-Stored {m} [] item p l sane is =
      let f = malloc-Fresh 1 m sane in
      let g = Fresh-set (some item ∷ []) f in
      rw (write_ok 0 item f.holds refl, free-null _ is)
        (returns (
          refl,
          record { count = refl; stored = g.holds },
          unlock-lock l,
          rw is (Fresh-Replaced g),
        ))
  add-Stored {m} (x ∷ xs) item p l sane is =
      let n : ℕ = suc (length xs) in
      let f = malloc-Fresh (n + 1) m sane in
      let c = Fresh-set (full (x ∷ xs) ++ none ∷ []) f in
      let g = Fresh-set (full (x ∷ xs ++ item ∷ [])) c in
      let copied =
        memcpy_ok 0 0 n (f.kept p _ is) f.holds (slice-full (x ∷ xs)) (splice_lower (x ∷ xs)) in
      let written = write_ok n item c.holds (splice_item (x ∷ xs) item) in
      let freed = free_ok (g.kept p _ is) in
      let z = Fresh-free g is in
      rw (+ℤ-pos n 1, ltb_ℤ-pos 0 n, lt→ltb 0 n (omega arith), copied, written, freed)
        (returns (
          refl,
          record { count = ap pos (omega (arith, length-append xs (item ∷ []))); stored = z.0 },
          unlock-lock l,
          z.1,
        ))

  -- Array::add on an array with the items `xs` succeeds: the array then has the items `xs` and, at
  -- the end, the new one; its lock is as before; the old block is freed and no other block is changed.
  pub add-append :
      {m : Memory A} {a : Array} {xs : List A} (item : A)
      → IsMemory m
      → IsArray m a xs
      → Returns (Added m a (xs ++ item ∷ [])) (add item a m)
  add-append {m} {a} {xs} item sane is =
      subst (λ c. Returns (Added m c (xs ++ item ∷ [])) (add item c m)) (sym (counted is))
        (add-Stored xs item a.items a.thread_lock sane is.stored)
