-- ===== src/Memory/Laws.antt =====
-- What the storage operations do to blocks that are there.
use magicserver.Prelude.{
  ℕ, suc, ◌+◌, ◌≤◌, ◌<◌, ◌≡◌, ◌≢◌, refl, Option, none, some, [], ◌∷◌, ◌++◌, arith, pos, length,
  drop, get_elem?, ok, fault, dangling, ne→==_false, eq→==, le→leb, leb-false, out_of_bounds,
  length-append, take-append, drop-append, ap, ◌∙◌,
}
use magicserver.Memory.{
  Ptr, null, Block, Memory, set_block, slice, splice, deref, free, memcpy, write, read,
}

-- `p` is the address of a block with the cells `b`.
pub record Holds {A : Type 0} (m : Memory A) (p : Ptr) (b : Block A) : Type 0 where
  pub ne_null : p ≢ null
  pub stored : m.block p ≡ some b

-- No block stands at an address that was never handed out.
abbrev pub IsMemory : {A : Type 0} → Memory A → Type 0
IsMemory m = (p : Ptr) → m.last < p → m.block p ≡ none

module _ {A : Type 0} where
  -- Cells in the middle of a block are overwritten by as many others.
  pub splice_middle :
      (xs old tail new : Block A) (o : ℕ)
      → o ≡ length xs
      → length new ≡ length old
      → splice o new (xs ++ (old ++ tail)) ≡ some (xs ++ (new ++ tail))
  unfolding splice
  splice_middle xs old tail new o e h =
      let fits : o + length new ≤ length (xs ++ (old ++ tail)) =
        omega (arith, length-append xs (old ++ tail), length-append old tail) in
      let rest : drop (o + length new) (xs ++ (old ++ tail)) ≡ tail =
        rw (e, h)
          (drop-append (length old) xs (old ++ tail)
            ∙ ap (λ n. drop n (old ++ tail)) {x = length old} {y = length old + 0} (omega arith)
            ∙ drop-append 0 old tail) in
      rw (le→leb _ _ fits, rest, e, take-append xs (old ++ tail))

  -- Cells in the middle of a block are read.
  pub slice_middle :
      (xs ys zs : Block A) (o n : ℕ)
      → o ≡ length xs
      → n ≡ length ys
      → slice o n (xs ++ (ys ++ zs)) ≡ some ys
  unfolding slice
  slice_middle xs ys zs o n e h =
      let fits : o + n ≤ length (xs ++ (ys ++ zs)) =
        omega (arith, length-append xs (ys ++ zs), length-append ys zs) in
      let rest : drop o (xs ++ (ys ++ zs)) ≡ ys ++ zs = rw e (
        ap (λ k. drop k (xs ++ (ys ++ zs))) {x = length xs} {y = length xs + 0} (omega arith)
        ∙ drop-append 0 xs (ys ++ zs)) in
      rw (le→leb _ _ fits, rest, h, take-append ys zs)

  pub deref_ok : {m : Memory A} {p : Ptr} {b : Block A} → Holds m p b → deref p m ≡ ok b
  unfolding deref
  deref_ok {p} e = rw (ne→==_false p null e.ne_null, e.stored)

  pub deref_freed :
      (m : Memory A) (p : Ptr) → p ≢ null → m.block p ≡ none → deref p m ≡ fault dangling
  unfolding deref
  deref_freed m p ne e = rw (ne→==_false p null ne, e)

  pub free-null : (m : Memory A) {p : Ptr} → p ≡ null → free p m ≡ ok m
  unfolding free
  free-null m {p} e = rw (eq→== p null e)

  pub free_ok :
      {m : Memory A} {p : Ptr} {b : Block A} → Holds m p b → free p m ≡ ok (set_block m p none)
  unfolding free
  free_ok {p} e = rw (ne→==_false p null e.ne_null, e.stored)

  pub memcpy_ok :
      {m : Memory A} {dst src : Ptr} {from to copied changed : Block A} (d s n : ℕ)
      → Holds m src from
      → Holds m dst to
      → slice s n from ≡ some copied
      → splice d copied to ≡ some changed
      → memcpy dst (pos d) src (pos s) (pos n) m ≡ ok (set_block m dst (some changed))
  unfolding memcpy
  memcpy_ok d s n source target ec eg = rw (deref_ok source, deref_ok target, ec, eg)

  -- A copy that does not fit its target.
  pub memcpy_overflow :
      {m : Memory A} {dst src : Ptr} {from to copied : Block A} (d s n : ℕ)
      → Holds m src from
      → Holds m dst to
      → slice s n from ≡ some copied
      → length to < d + length copied
      → memcpy dst (pos d) src (pos s) (pos n) m ≡ fault out_of_bounds
  unfolding memcpy splice
  memcpy_overflow d s n source target ec h =
      rw (deref_ok source, deref_ok target, ec, leb-false _ _ h)

  pub write_ok :
      {m : Memory A} {p : Ptr} {to changed : Block A} (i : ℕ) (a : A)
      → Holds m p to
      → splice i (some a ∷ []) to ≡ some changed
      → write p (pos i) a m ≡ ok (set_block m p (some changed))
  unfolding write
  write_ok i a e eg = rw (deref_ok e, eg)

  pub read_ok :
      {m : Memory A} {p : Ptr} {from : Block A} {a : A} (i : ℕ)
      → Holds m p from
      → get_elem? from i ≡ some (some a)
      → read p (pos i) m ≡ ok a
  unfolding read
  read_ok i e eg = rw (deref_ok e, eg)

  -- A block that is overwritten holds what was written, and the others are as they were.
  pub Holds-set_self :
      (m : Memory A) (p : Ptr) (b : Block A) → p ≢ null → Holds (set_block m p (some b)) p b
  Holds-set_self m p b ne = record { ne_null = ne; stored = rw (eq→== p p refl) }

  pub Holds-set_ne :
      {m : Memory A} {p : Ptr} {b : Block A} (q : Ptr) (c : Option (Block A))
      → Holds m p b
      → q ≢ p
      → Holds (set_block m q c) p b
  Holds-set_ne {p} q c e ne = record {
    ne_null = e.ne_null;
    stored = rw (ne→==_false q p ne) e.stored;
  }

  pub IsMemory-set :
      {b : Block A} (m : Memory A) (p : Ptr) (c : Option (Block A))
      → Holds m p b
      → IsMemory m
      → IsMemory (set_block m p c)
  IsMemory-set m p c e fresh q h = ground (arith, fresh q, fresh p, e.stored)

  -- The address of a block is one that was handed out.
  pub Holds-le : {m : Memory A} {p : Ptr} {b : Block A} → IsMemory m → Holds m p b → p < suc m.last
  Holds-le {m} {p} fresh e = ground (arith, fresh p, e.stored)
