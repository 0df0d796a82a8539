-- ===== src/Container/Array/Refusals.antt =====
-- Array::remove at positions where there is no item.
use magicserver.Prelude.{
  ℕ, ◌<◌, ◌≡◌, sym, subst, ◌-◌, Option, none, List, ◌∷◌, arith, pos, ltb_ℤ-pos, ==ℤ-pos, -ℤ-pos,
  lt→ltb, le→ltb_false, ne→==_false, length, length-replicate, ok, fault, out_of_bounds,
}
use magicserver.Errors.{invalid_argument}
use magicserver.Lock.{ThreadLock, lock}
use magicserver.Memory.{Ptr, Memory}
use magicserver.Memory.Laws.{IsMemory, memcpy_overflow}
use magicserver.Memory.Fresh.{malloc-Fresh}
use magicserver.Container.Array.{Array, remove, copy_lower}
use magicserver.Container.Array.Contents.{Stored, IsArray, length-full, counted}
use magicserver.Container.Array.Copies.{fields}
use magicserver.Container.Array.Add.{slice-full}

module _ {A : Type 0} {m : Memory A} where
  -- Array::remove at a position above the item count returns MSRVERR_INVALID_ARGUMENT and removes
  -- nothing; but the lock that it took stays held.
  pub remove_above :
      {a : Array} {xs : List A} (i : ℕ)
      → IsArray m a xs
      → length xs < i
      → remove (pos i) a m ≡ ok (invalid_argument, record a { thread_lock = lock a.thread_lock }, m)
  unfolding remove
  remove_above {xs} i is h = simp (is.count, ltb_ℤ-pos, lt→ltb (length xs) i h)

  remove_at_end-Stored :
      (x y : A) (xs : List A) (p : Ptr) (l : ThreadLock)
      → IsMemory m
      → Stored m p (x ∷ y ∷ xs)
      → let n : ℕ = length (x ∷ y ∷ xs) in remove (pos n) (fields p n l) m ≡ fault out_of_bounds
  unfolding remove copy_lower
  remove_at_end-Stored x y xs p l sane is =
      let n : ℕ = length (x ∷ y ∷ xs) in
      let f = malloc-Fresh (n - 1) m sane in
      let over =
        memcpy_overflow 0 0 n (f.kept p _ is) f.holds (slice-full (x ∷ y ∷ xs))
          (omega (arith, length-replicate {A = Option A} (n - 1) none, length-full xs)) in
      rw (
        ltb_ℤ-pos n n,
        le→ltb_false n n (omega arith),
        ==ℤ-pos n 1,
        ne→==_false n 1 (omega arith),
        -ℤ-pos n 1 (omega arith),
        ltb_ℤ-pos 0 n,
        lt→ltb 0 n (omega arith),
        over,
      )

  -- Array::remove at the position just behind the last of two or more items, which the guard lets
  -- pass, writes past the end of the block that it allocates.
  pub remove_at_end :
      {a : Array} (x y : A) (xs : List A)
      → IsMemory m
      → IsArray m a (x ∷ y ∷ xs)
      → remove (pos (length (x ∷ y ∷ xs))) a m ≡ fault out_of_bounds
  remove_at_end {a} x y xs sane is =
      subst (λ c. remove (pos (length (x ∷ y ∷ xs))) c m ≡ fault out_of_bounds) (sym (counted is))
        (remove_at_end-Stored x y xs a.items a.thread_lock sane is.stored)
