-- ===== src/Memory.antt =====
-- The storage behind `malloc`, `realloc`, `free` and `memcpy` as the library calls them: blocks of
-- cells at addresses. A cell holds an item, or nothing as long as it was not written. `malloc` of a size that
-- is not negative is taken to succeed, since the code never tests for failure; of a negative size,
-- which as a `size_t` exceeds every address space, it returns NULL.
pub mod Laws
pub mod Fresh
use magicserver.Prelude.{
  ℕ, suc, ◌+◌, ◌-◌, Option, none, some, List, [], ◌∷◌, ◌++◌, ℤ, pos, negsuc, ◌==◌, leb,
  if◌then◌else◌, length, get_elem?, take, drop, replicate, Outcome, ok, fault, null_pointer,
  dangling, out_of_bounds, bad_free, uninitialised, ◌>>=◌, or_fault,
}

abbrev pub Ptr : Type 0
Ptr = ℕ

abbrev pub null : Ptr
null = 0

abbrev pub Block : Type 0 → Type 0
Block A = List (Option A)

-- Addresses above `last` have never been handed out.
pub record Memory (A : Type 0) : Type 0 where
  pub last : Ptr
  pub block : Ptr → Option (Block A)

-- An offset into a block.
abbrev pub index : ℤ → Outcome ℕ
index (pos n) = ok n
index (negsuc n) = fault out_of_bounds

module _ {A : Type 0} where
  abbrev pub set_block : Memory A → Ptr → Option (Block A) → Memory A
  set_block m p b = record m { block = λ q. if p == q then b else m.block q }

  -- The cells from `o` on, `n` of them, if the block has them.
  unfoldable pub slice : ℕ → ℕ → Block A → Option (Block A)
  slice o n cells = if leb (o + n) (length cells) then some (take n (drop o cells)) else none

  -- A block with the cells from `o` on overwritten, if they fit.
  unfoldable pub splice : ℕ → Block A → Block A → Option (Block A)
  splice o new cells =
      if leb (o + length new) (length cells)
      then some (take o cells ++ (new ++ drop (o + length new) cells))
      else none

  unfoldable pub deref : Ptr → Memory A → Outcome (Block A)
  deref p m = if p == null then fault null_pointer else or_fault dangling (m.block p)

  unfoldable pub malloc : ℤ → Memory A → Ptr × Memory A
  malloc (pos n) m =
      let p = suc m.last in
      (p, record { last = p; block = (set_block m p (some (replicate n none))).block })
  malloc (negsuc n) m = (null, m)

  -- `free` of NULL does nothing.
  unfoldable pub free : Ptr → Memory A → Outcome (Memory A)
  free p m =
      if p == null
      then ok m
      else elim (m.block p) [ none ↦ fault bad_free | some _ ↦ ok (set_block m p none) ]

  -- `realloc` of a block: a new block that begins with as much of the old one as it has room for.
  unfoldable pub realloc : Ptr → ℕ → Memory A → Outcome (Ptr × Memory A)
  realloc p n m = do
    old ← deref p m
    freed ← free p m
    let q = suc freed.last
    ok (
      q,
      set_block (record freed { last = q }) q
          (some (take n old ++ replicate (n - length old) none)),
    )

  -- `memcpy (dst + d, src + s, n * sizeof (A))`
  unfoldable pub memcpy : Ptr → ℤ → Ptr → ℤ → ℤ → Memory A → Outcome (Memory A)
  memcpy dst d src s n m = do
    from ← deref src m
    to ← deref dst m
    start ← index s
    count ← index n
    target ← index d
    copied ← or_fault out_of_bounds (slice start count from)
    changed ← or_fault out_of_bounds (splice target copied to)
    ok (set_block m dst (some changed))

  -- `p[i] = a`
  unfoldable pub write : Ptr → ℤ → A → Memory A → Outcome (Memory A)
  write p i a m = do
    to ← deref p m
    target ← index i
    changed ← or_fault out_of_bounds (splice target (some a ∷ []) to)
    ok (set_block m p (some changed))

  -- `p[i]`
  unfoldable pub read : Ptr → ℤ → Memory A → Outcome A
  read p i m = do
    from ← deref p m
    start ← index i
    cell ← or_fault out_of_bounds (get_elem? from start)
    or_fault uninitialised cell
