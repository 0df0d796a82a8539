-- ===== src/Container/Array/Contents.antt =====
-- The list that an array stands for.
use magicserver.Prelude.{
  suc, ◌≡◌, Option, some, List, [], ◌∷◌, ◌++◌, pos, map, length, refl, ap, ◌<◌, arith,
}
use magicserver.Memory.{Ptr, null, Block, Memory}
use magicserver.Memory.Laws.{Holds}
use magicserver.Container.Array.{Array, empty}

module _ {A : Type 0} where
  -- An array without cells has no block.
  abbrev pub Cells : Memory A → Ptr → Block A → Type 0
  Cells m p [] = p ≡ null
  Cells m p (c ∷ cs) = Holds m p (c ∷ cs)

  -- Cells that all hold an item.
  abbrev pub full : List A → Block A
  full xs = map some xs

  abbrev pub Stored : Memory A → Ptr → List A → Type 0
  Stored m p xs = Cells m p (full xs)

  -- The array's block holds the items `xs`, every one of them written, and no more.
  pub record IsArray (m : Memory A) (a : Array) (xs : List A) : Type 0 where
    pub count : a.item_count ≡ pos (length xs)
    pub stored : Stored m a.items xs

  pub length-full : (xs : List A) → length (full xs) ≡ length xs
  length-full [] = refl
  length-full (x ∷ xs) = ap suc (length-full xs)

  pub Cells-Holds_pos :
      {m : Memory A} {p : Ptr} (cs : Block A) → Cells m p cs → 0 < length cs → Holds m p cs
  Cells-Holds_pos [] h e = absurd (omega arith)
  Cells-Holds_pos (c ∷ cs) h e = h

  pub Cells-Holds :
      {m : Memory A} {p : Ptr} (cs : Block A) (c : Option A) (ds : Block A)
      → Cells m p (cs ++ c ∷ ds)
      → Holds m p (cs ++ c ∷ ds)
  Cells-Holds [] c ds h = h
  Cells-Holds (b ∷ cs) c ds h = h

  pub Holds-Cells :
      {m : Memory A} {p : Ptr} (cs : Block A) → Holds m p cs → 0 < length cs → Cells m p cs
  Holds-Cells [] h e = absurd (omega arith)
  Holds-Cells (c ∷ cs) h e = h

  pub counted :
      {m : Memory A} {a : Array} {xs : List A}
      → IsArray m a xs
      → a ≡ record a { item_count = pos (length xs) }
  counted {a} is i = record a { item_count = is.count i }

  pub empty-IsArray : (m : Memory A) → IsArray m empty []
  empty-IsArray m = record { count = refl; stored = refl }
