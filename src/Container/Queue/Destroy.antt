-- ===== src/Container/Queue/Destroy.antt =====
-- Queue::~Queue, which deletes the newest item, and with it the items that its `next` pointers lead to.
use magicserver.Prelude.{
  ℕ, zero, suc, ◌≡◌, ◌≢◌, ◌<◌, refl, sym, ap, subst, ◌+◌, ◌∙◌, ◌||◌, Option, none, some, List, [],
  ◌∷◌, ◌++◌, false, append_assoc, append-nil, arith, ◌==◌, if◌then◌else◌, ne→==_false, eq→==,
  length, Bool-cases, inl, inr, Returns, returns, Returns-bind,
}
use magicserver.Lock.{unlock-lock}
use magicserver.Memory.{Ptr, null}
use magicserver.Container.Queue.{
  ListItem, Heap, Queue, load, delete_item, delete_value, is_deleted, destroy,
}
use magicserver.Container.Queue.Chain.{Cells, has, Chain, one, more, Linked, IsQueue}

-- The `next` pointers lead from `p` through these items to NULL.
abbrev pub Leads : (Ptr → Option ListItem) → Ptr → Cells → Type 0
Leads items p [] = p ≡ null
Leads items p ((a, v) ∷ ys) =
    (p ≡ a)
    × (p ≢ null)
    × ((prev : Ptr) × (next : Ptr) × (items p
          ≡ some (record { value = v; prev = prev; next = next }))
        × Leads items next ys)

-- The cells in reverse, before others.
abbrev pub rev_onto : Cells → Cells → Cells
rev_onto [] ys = ys
rev_onto (c ∷ xs) ys = rev_onto xs (c ∷ ys)

Chain-Leads :
    {h : Heap} {first after p : Ptr} {xs : Cells} (ys : Cells)
    → Chain h first after p xs
    → Leads h.item after ys
    → Leads h.item first (rev_onto xs ys)
Chain-Leads {h} ys (one {after} {p} {v} e f) l =
    subst (λ a. Leads h.item a ((p, v) ∷ ys)) f (refl, e.ne_null, (null, after, e.holds, l))
Chain-Leads ys (more {p} {q} {v} e out c) l =
    Chain-Leads ((p, v) ∷ ys) c (refl, e.ne_null, (q, _, e.holds, l))

-- The pointers that are not NULL, which are deleted.
abbrev pub objects : Cells → List Ptr
objects [] = []
objects ((a, v) ∷ ys) = if v == null then objects ys else v ∷ objects ys

pub record Deleted (h : Heap) (ys : Cells) (g : Heap) : Type 0 where
  pub destroyed : g.deleted ≡ h.deleted ++ objects ys
  pub freed : (a : Ptr) → g.item a ≡ (if has a ys then none else h.item a)

-- No pointer stands in the list twice.
abbrev pub Distinct : List Ptr → Type 0
Distinct [] = Unit {0}
Distinct (v ∷ vs) = (is_deleted v vs ≡ false) × Distinct vs

is_deleted-apart :
    (v w : Ptr) (ds rest : List Ptr) → is_deleted v (ds ++ w ∷ rest) ≡ false → (v == w) ≡ false
unfolding is_deleted
is_deleted-apart v w [] rest h = ground arith
is_deleted-apart v w (d ∷ ds) rest h = is_deleted-apart v w ds rest (ground arith)

Distinct-new :
    (ds : List Ptr) (w : Ptr) (rest : List Ptr)
    → Distinct (ds ++ w ∷ rest)
    → is_deleted w ds ≡ false
unfolding is_deleted
Distinct-new [] w rest d = refl
Distinct-new (v ∷ ds) w rest (out, d) =
    rw (is_deleted-apart v w ds rest out) (Distinct-new ds w rest d)

-- An object that was not deleted before.
delete_value-Distinct :
    (a v : Ptr) (h : Heap) (ys : Cells)
    → Distinct (h.deleted ++ objects ((a, v) ∷ ys))
    → Returns
        (λ g. (g.item ≡ h.item) × (g.deleted ++ objects ys ≡ h.deleted ++ objects ((a, v) ∷ ys)))
        (delete_value v h)
unfolding delete_value
delete_value-Distinct a v h ys d = elim (Bool-cases (v == null)) [
  | inl e ↦ rw e (returns (refl, refl))
  | inr e ↦
      rw (e, Distinct-new h.deleted v (objects ys) (rw e at d))
        (returns (refl, append_assoc h.deleted (v ∷ []) (objects ys)))
]

-- The item is freed last.
freed_last :
    (a p : Ptr) (v : Ptr) (ys : Cells) (o : Option ListItem)
    → (if p == a then none else if has a ys then none else o)
      ≡ (if has a ((p, v) ∷ ys) then none else o)
freed_last a p v ys o = ground arith

delete_item-Deleted :
    {h : Heap} (f : ℕ) (p : Ptr) (ys : Cells)
    → Leads h.item p ys
    → Distinct (h.deleted ++ objects ys)
    → length ys < f
    → Returns (Deleted h ys) (delete_item f p h)
unfolding delete_item load
delete_item-Deleted zero p ys l apart h = absurd (omega arith)
delete_item-Deleted {h} (suc f) p [] l apart lt =
    rw (eq→== p null l)
      (returns (record { destroyed = sym (append-nil h.deleted); freed = λ a. refl }))
delete_item-Deleted {h} (suc f) p ((a, v) ∷ ys) (e, ne, (prev, next, holds, l)) apart lt =
    rw (ne→==_false p null ne, holds)
      (Returns-bind (delete_value-Distinct a v h ys apart) λ h₀ (same, told).
        Returns-bind
          (delete_item-Deleted {h = h₀} f next ys
            (subst (λ items. Leads items next ys) (sym same) l) (subst Distinct (sym told) apart)
            (omega arith))
          λ g d. returns (record {
            destroyed = d.destroyed ∙ told;
            freed = λ b.
                ap (λ o. if p == b then none else o)
                  (d.freed b ∙ ap (λ items. if has b ys then none else items b) same)
                ∙ rw e (freed_last b a v ys (h.item b));
          }))

Linked-Leads :
    (h : Heap) (first last : Ptr) (xs : Cells)
    → Linked h first last xs
    → Leads h.item first (rev_onto xs [])
Linked-Leads h first last [] (no_first, no_last) = no_first
Linked-Leads h first last (c ∷ xs) l = Chain-Leads [] l refl

length-rev_onto : (xs ys : Cells) → length (rev_onto xs ys) ≡ length xs + length ys
length-rev_onto [] ys = omega arith
length-rev_onto (c ∷ xs) ys = omega (arith, length-rev_onto xs (c ∷ ys))

has-rev_onto : (a : Ptr) (xs ys : Cells) → has a (rev_onto xs ys) ≡ (has a xs || has a ys)
has-rev_onto a [] ys = refl
has-rev_onto a ((p, v) ∷ xs) ys = ground (arith, has-rev_onto a xs ((p, v) ∷ ys))

-- The destructor of a queue whose items hold different objects, none of which was deleted before, ends,
-- with fuel for one more than the items. It deletes every object that the items hold, the newest
-- first and each once, frees every item, and changes no other; its lock and its pointers are left as
-- they were.
pub destroy_lem :
    {h : Heap} {q : Queue} {xs : Cells} (f : ℕ)
    → IsQueue h q xs
    → Distinct (h.deleted ++ objects (rev_onto xs []))
    → length xs < f
    → Returns
        (λ (q', g).
          (q' ≡ q)
          × (g.deleted ≡ h.deleted ++ objects (rev_onto xs []))
          × ((a : Ptr) → g.item a ≡ (if has a xs then none else h.item a)))
        (destroy f q h)
unfolding destroy
destroy_lem {h} {q} {xs} f is apart lt =
    Returns-bind
      (delete_item-Deleted f q.first (rev_onto xs []) (Linked-Leads h q.first q.last xs is.linked)
        apart (omega (arith, length-rev_onto xs [])))
      λ g d. returns (
        ap (λ l. record q { thread_lock = l }) (unlock-lock q.thread_lock),
        d.destroyed,
        λ a. ground (arith, d.freed a, has-rev_onto a xs []),
      )
