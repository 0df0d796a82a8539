-- ===== src/Memory/Fresh.antt =====
-- A change of an array in storage: a new block is allocated and filled, then the old one is freed.
use magicserver.Prelude.{ℕ, suc, ◌≡◌, ◌≢◌, refl, sym, none, some, arith, pos, replicate, eq→==}
use magicserver.Memory.{Ptr, null, Block, Memory, set_block, malloc}
use magicserver.Memory.Laws.{Holds, IsMemory, Holds-set_self, Holds-set_ne, IsMemory-set, Holds-le}

module _ {A : Type 0} where
  -- `n` is `m` with the cells `b` in a block that `m` does not have.
  pub record Fresh (m n : Memory A) (p : Ptr) (b : Block A) : Type 0 where
    pub holds : Holds n p b
    pub kept : (q : Ptr) (c : Block A) → Holds m q c → Holds n q c
    pub apart : (q : Ptr) (c : Block A) → Holds m q c → p ≢ q
    pub sane : IsMemory n

  -- `n` is `m` with the block at `old` freed, if there was one; the other blocks are as they were.
  pub record Replaced (old : Ptr) (m n : Memory A) : Type 0 where
    pub freed : old ≢ null → n.block old ≡ none
    pub kept : (q : Ptr) (c : Block A) → old ≢ q → Holds m q c → Holds n q c
    pub sane : IsMemory n

  pub malloc-Fresh :
      (n : ℕ) (m : Memory A)
      → IsMemory m
      → Fresh m (malloc (pos n) m).1 (malloc (pos n) m).0 (replicate n none)
  unfolding malloc
  malloc-Fresh n m sane = record {
    holds = record { ne_null = omega arith; stored = rw (eq→== (suc m.last) (suc m.last) refl) };
    kept =
        λ q c e. record { ne_null = e.ne_null; stored = ground (arith, Holds-le sane e, e.stored) };
    apart = λ q c e. omega (arith, Holds-le sane e);
    sane = λ q h. ground (arith, sane q);
  }

  pub Fresh-set :
      {m n : Memory A} {p : Ptr} {b : Block A} (c : Block A)
      → Fresh m n p b
      → Fresh m (set_block n p (some c)) p c
  Fresh-set {n} {p} c f = record {
    holds = Holds-set_self n p c f.holds.ne_null;
    kept = λ q d e. Holds-set_ne p (some c) (f.kept q d e) (f.apart q d e);
    apart = f.apart;
    sane = IsMemory-set n p (some c) f.holds f.sane;
  }

  pub Fresh-free :
      {m n : Memory A} {p old : Ptr} {b c : Block A}
      → Fresh m n p b
      → Holds m old c
      → Holds (set_block n old none) p b × Replaced old m (set_block n old none)
  Fresh-free {n} {p} {old} {c} f e = (
    Holds-set_ne old none f.holds (λ h. f.apart old c e (sym h)),
    record {
      freed = λ _. rw (eq→== old old refl);
      kept = λ q d ne g. Holds-set_ne old none (f.kept q d g) ne;
      sane = IsMemory-set n old none (f.kept old c e) f.sane;
    },
  )

  -- Nothing is freed where there was no block.
  pub Fresh-Replaced : {m n : Memory A} {p : Ptr} {b : Block A} → Fresh m n p b → Replaced null m n
  Fresh-Replaced f = record {
    freed = λ h. absurd (h refl);
    kept = λ q c _ e. f.kept q c e;
    sane = f.sane;
  }

  pub free-Replaced :
      {m : Memory A} {old : Ptr} {c : Block A}
      → IsMemory m
      → Holds m old c
      → Replaced old m (set_block m old none)
  free-Replaced {m} {old} sane e = record {
    freed = λ _. rw (eq→== old old refl);
    kept = λ q d ne g. Holds-set_ne old none g ne;
    sane = IsMemory-set m old none e sane;
  }
