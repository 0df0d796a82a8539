-- ===== src/Container/Array/Copies.antt =====
-- The two copies that Array::remove makes into the new block.
use magicserver.Prelude.{
  ℕ, suc, ◌+◌, ◌-◌, ◌≡◌, refl, ap, ◌∙◌, sym, subst, inl, inr, Option, none, some, List, [], ◌∷◌,
  ◌++◌, arith, pos, +ℤ-pos, -ℤ-pos, ltb_ℤ-pos, leb, if◌then◌else◌, le→ltb_false, Bool-cases,
  append-nil, append_assoc, length, replicate, length-append, length-replicate, replicate_add,
  lt→ltb, ok,
}
use magicserver.Lock.{ThreadLock}
use magicserver.Memory.{Ptr, Block, Memory, set_block, malloc, slice, splice}
use magicserver.Memory.Laws.{Holds, IsMemory, slice_middle, splice_middle, memcpy_ok}
use magicserver.Memory.Fresh.{Fresh, malloc-Fresh, Fresh-set}
use magicserver.Container.Array.{Array, copy_lower, copy_upper}
use magicserver.Container.Array.Contents.{full, length-full}

-- The fields of an array whose block is at `p`.
abbrev pub fields : Ptr → ℕ → ThreadLock → Array
fields p n l = record { items = p; item_count = pos n; thread_lock = l }

module _ {A : Type 0} where
  -- What stands behind the lower part `pre` once the item between `pre` and `post` is removed.
  abbrev pub upper : List A → List A → Block A
  upper pre post =
      if leb (length pre) (length post) then full post else replicate (length post) none

  -- The slice that the lower copy takes, and its place in the new block.
  lower_slice :
      (pre : List A) (x : A) (post : List A)
      → slice 0 (length pre) (full pre ++ some x ∷ full post) ≡ some (full pre)
  lower_slice pre x post =
      slice_middle [] (full pre) (some x ∷ full post) 0 (length pre) refl (sym (length-full pre))

  upper_slice :
      (pre : List A) (x : A) (post : List A)
      → slice (length pre + 1) (length post) (full pre ++ some x ∷ full post) ≡ some (full post)
  upper_slice pre x post =
      ap (slice (length pre + 1) (length post)) regrouped
      ∙ slice_middle (full pre ++ some x ∷ []) (full post) [] (length pre + 1) (length post)
          (omega (arith, length-append (full pre) (some x ∷ []), length-full pre))
          (sym (length-full post))
    where
      regrouped : full pre ++ some x ∷ full post ≡ (full pre ++ some x ∷ []) ++ (full post ++ [])
      regrouped = simp (append_assoc, append-nil)

  pub copy_upper-Fresh :
      {m n : Memory A} {p q : Ptr} (pre : List A) (x : A) (post : List A) (count : ℕ)
      (l : ThreadLock)
      → Holds m p (full pre ++ some x ∷ full post)
      → count ≡ length pre + suc (length post)
      → Fresh m n q (full pre ++ replicate (length post) none)
      → (o : Memory A) × (copy_upper (pos (length pre)) (fields p count l) q n ≡ ok o)
        × Fresh m o q (full pre ++ upper pre post)
  unfolding copy_upper
  copy_upper-Fresh {n} {p} {q} pre x post count l held e f =
      elim (Bool-cases (leb (length pre) (length post))) [
        | inl long ↦
            let copied =
              memcpy_ok (length pre) (length pre + 1) (length post) (f.kept p _ held) f.holds
                (upper_slice pre x post) place in
            (
              set_block n q (some (full pre ++ full post)),
              rw
                  (
                    e,
                    -ℤ-pos (length pre + suc (length post)) (length pre) (omega arith),
                    -ℤ-pos (length pre + suc (length post) - length pre) 1 (omega arith),
                    ltb_ℤ-pos,
                    lt→ltb (length pre) (length pre + suc (length post) - length pre)
                        (ground arith),
                    +ℤ-pos,
                    shorter,
                  )
                  copied,
              rw long (Fresh-set (full pre ++ full post) f),
            )
        | inr short ↦ (
          n,
          rw (
            e,
            -ℤ-pos (length pre + suc (length post)) (length pre) (omega arith),
            ltb_ℤ-pos,
            le→ltb_false (length pre) (length pre + suc (length post) - length pre) (ground arith),
          ),
          rw short f,
        )
      ]
    where
      shorter : length pre + suc (length post) - length pre - 1 ≡ length post
      shorter = omega arith

      place :
          splice (length pre) (full post) (full pre ++ replicate (length post) none)
          ≡ some (full pre ++ full post)
      place =
          ap (splice (length pre) (full post)) (ap (◌++◌ (full pre)) (sym (append-nil _)))
          ∙ splice_middle (full pre) (replicate (length post) none) [] (full post) (length pre)
              (sym (length-full pre)) (length-full post ∙ sym (length-replicate (length post) none))
          ∙ ap some (ap (◌++◌ (full pre)) (append-nil _))

  pub copy_lower-Fresh :
      {m n : Memory A} {p q : Ptr} (pre : List A) (x : A) (post : List A) (count : ℕ)
      (l : ThreadLock) (rest : Block A)
      → Holds m p (full pre ++ some x ∷ full post)
      → Fresh m n q (replicate (length pre) none ++ rest)
      → (o : Memory A) × (copy_lower (pos (length pre)) (fields p count l) q n ≡ ok o)
        × Fresh m o q (full pre ++ rest)
  unfolding copy_lower
  copy_lower-Fresh {n} [] x post count l rest held f = (n, rw (ltb_ℤ-pos 0 0), f)
  copy_lower-Fresh {p} (y ∷ pre) x post count l rest held f = (
    _,
    rw (ltb_ℤ-pos 0 (length (y ∷ pre)), lt→ltb 0 (length (y ∷ pre)) (omega arith))
        (memcpy_ok 0 0 (length (y ∷ pre)) (f.kept p _ held) f.holds (lower_slice (y ∷ pre) x post)
          place),
    Fresh-set (full (y ∷ pre) ++ rest) f,
  )
    where
      place :
          splice 0 (full (y ∷ pre)) (replicate (length (y ∷ pre)) none ++ rest)
          ≡ some (full (y ∷ pre) ++ rest)
      place =
          splice_middle [] (replicate (length (y ∷ pre)) none) rest (full (y ∷ pre)) 0 refl
            (length-full (y ∷ pre) ∙ sym (length-replicate (length (y ∷ pre)) none))

  pub length-upper : (pre post : List A) → length (upper pre post) ≡ length post
  length-upper pre post = elim (Bool-cases (leb (length pre) (length post))) [
    | inl long ↦ rw long (length-full post)
    | inr short ↦ rw short (length-replicate (length post) none)
  ]

  -- The new block, before the copies.
  pub malloc_two :
      (a b : ℕ) (m : Memory A)
      → IsMemory m
      → Fresh m
          (malloc (pos (a + suc b - 1)) m).1
          (malloc (pos (a + suc b - 1)) m).0
          (replicate a none ++ replicate b none)
  malloc_two a b m sane = subst (Fresh m _ _) blank (malloc-Fresh (a + suc b - 1) m sane)
    where
      blank : replicate {A = Option A} (a + suc b - 1) none ≡ replicate a none ++ replicate b none
      blank =
          ap (λ k. replicate k none) {x = a + suc b - 1} {y = a + b} (omega arith)
          ∙ replicate_add a b none
