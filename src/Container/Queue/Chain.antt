-- ===== src/Container/Queue/Chain.antt =====
-- The items that a queue links, oldest first, each with the pointer that it holds.
use magicserver.Prelude.{
  ◌≡◌, ◌≢◌, ◌<◌, Bool, true, false, ◌||◌, none, some, List, [], ◌∷◌, arith, ◌==◌, ne→==_false, ok,
}
use magicserver.Memory.{Ptr, null}
use magicserver.Container.Queue.{Heap, Queue, load}

abbrev pub Cells : Type 0
Cells = List (Ptr × Ptr)

abbrev pub has : Ptr → Cells → Bool
has a [] = false
has a ((p, v) ∷ xs) = (a == p) || has a xs

-- `p` is the address of an item with these members.
pub record At (h : Heap) (p v prev next : Ptr) : Type 0 where
  pub ne_null : p ≢ null
  pub holds : h.item p ≡ some (record { value = v; prev = prev; next = next })

-- From `p`, whose `next` is `after`, the `prev` pointers lead through the distinct items `xs` to
-- `first`, each the `next` of the one that it leads to.
pub data Chain (h : Heap) (first : Ptr) : Ptr → Ptr → Cells → Type 0 where
  one : {after p v : Ptr} → At h p v null after → p ≡ first → Chain h first after p ((p, v) ∷ [])
  more :
      {after p q v : Ptr} {xs : Cells}
      → At h p v q after
      → has p xs ≡ false
      → Chain h first p q xs
      → Chain h first after p ((p, v) ∷ xs)

-- What a queue stands for.
abbrev pub Linked : Heap → Ptr → Ptr → Cells → Type 0
Linked h first last [] = (first ≡ null) × (last ≡ null)
Linked h first last (x ∷ xs) = Chain h first null last (x ∷ xs)

-- No item stands at an address that was never handed out.
abbrev pub IsHeap : Heap → Type 0
IsHeap h = (p : Ptr) → h.last_address < p → h.item p ≡ none

pub record IsQueue (h : Heap) (q : Queue) (xs : Cells) : Type 0 where
  pub linked : Linked h q.first q.last xs
  pub sane : IsHeap h

pub load_ok :
    {h : Heap} {p v a b : Ptr}
    → At h p v a b
    → load p h ≡ ok (record { value = v; prev = a; next = b })
unfolding load
load_ok {p} e = rw (ne→==_false p null e.ne_null, e.holds)

-- A chain survives a change that spares its own items.
pub frame :
    {h g : Heap} {first after p : Ptr} {xs : Cells}
    → Chain h first after p xs
    → ((a : Ptr) → has a xs ≡ true → g.item a ≡ h.item a)
    → Chain g first after p xs
frame (one {p} e f) same =
    one (record { ne_null = e.ne_null; holds = ground (arith, same p, e.holds) }) f
frame (more {p} e out c) same =
    more (record { ne_null = e.ne_null; holds = ground (arith, same p, e.holds) }) out
      (frame c λ a i. same a (ground arith))

pub has-first :
    {h : Heap} {first after p : Ptr} {xs : Cells} → Chain h first after p xs → has first xs ≡ true
has-first (one e f) = ground arith
has-first (more e out c) = ground (arith, has-first c)

pub has-head :
    {h : Heap} {first after p : Ptr} {xs : Cells} → Chain h first after p xs → has p xs ≡ true
has-head (one e f) = ground arith
has-head (more e out c) = ground arith

-- An address without an item is none of the chain's.
pub unused :
    {h : Heap} {first after p : Ptr} {xs : Cells} (a : Ptr)
    → Chain h first after p xs
    → h.item a ≡ none
    → has a xs ≡ false
unused a (one e f) free = ground (arith, e.holds)
unused a (more e out c) free = ground (arith, e.holds, unused a c free)

pub head-ne_null :
    {h : Heap} {first after p : Ptr} {xs : Cells} → Chain h first after p xs → p ≢ null
head-ne_null (one e f) = e.ne_null
head-ne_null (more e out c) = e.ne_null

pub head-At :
    {h : Heap} {first after p : Ptr} {xs : Cells}
    → Chain h first after p xs
    → (v : Ptr) × (b : Ptr) × At h p v b after
head-At (one {v} e f) = (v, null, e)
head-At (more {q} {v} e out c) = (v, q, e)

pub Chain-Linked :
    {h : Heap} {first p : Ptr} {xs : Cells} → Chain h first null p xs → Linked h first p xs
Chain-Linked (one e f) = one e f
Chain-Linked (more e out c) = more e out c
