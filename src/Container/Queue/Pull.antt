-- ===== src/Container/Queue/Pull.antt =====
-- Queue::pull against the list of items.
use magicserver.Prelude.{
  ℕ, suc, ◌≡◌, ◌≢◌, refl, sym, true, Option, none, some, [], ◌∷◌, arith, ne→==_false, eq→==, ok,
  Returns, returns, Returns-bind,
}
use magicserver.Lock.{unlock-lock}
use magicserver.Memory.{Ptr, null}
use magicserver.Container.Queue.{
  ListItem, Heap, set_item, Queue, pull, pull_last, unlink, set_next, set_value, delete_item,
}
use magicserver.Container.Queue.Chain.{
  Cells, has, At, Chain, one, more, IsHeap, IsQueue, load_ok, frame, head-ne_null, has-head,
  head-At, Chain-Linked,
}

-- An item that links no later one is destroyed alone; its object pointer is NULL by then.
delete_unlinked :
    {h : Heap} {p a : Ptr} (f : ℕ)
    → At h p null a null
    → delete_item (suc (suc f)) p h ≡ ok (set_item h p none)
unfolding delete_item
delete_unlinked {p} f e = rw (ne→==_false p null e.ne_null, load_ok e)

-- The members of an item that is overwritten.
At-set :
    {h : Heap} {p v a b : Ptr} (w c d : Ptr)
    → At h p v a b
    → At (set_item h p (some (record { value = w; prev = c; next = d }))) p w c d
At-set {p} w c d e = record { ne_null = e.ne_null; holds = rw (eq→== p p refl) }

At-set_ne :
    {h : Heap} {p v a b q : Ptr} (i : Option ListItem)
    → At h p v a b
    → p ≢ q
    → At (set_item h q i) p v a b
At-set_ne {p} {q} i e ne = record {
  ne_null = e.ne_null;
  holds = rw (ne→==_false q p (λ d. ne (sym d))) e.holds;
}

-- What is true after pull of the first of the cells: the pointer that it holds is the result, its
-- list item is gone, the queue stands for the rest, the lock is as it was, and no object was
-- destroyed.
abbrev pub Pulled : Heap → Queue → Ptr × Ptr → Cells → Ptr × Queue × Heap → Type 0
Pulled h q (z, v) xs (r, q', g) =
    (r ≡ v)
    × IsQueue g q' xs
    × (g.item z ≡ none)
    × (q'.thread_lock ≡ q.thread_lock)
    × (g.deleted ≡ h.deleted)

-- The first item, whose `next` is cut.
cut :
    {h : Heap} {first after p : Ptr} {xs : Cells} (g : Heap)
    → Chain h first after p xs
    → ((v a : Ptr) → At h p v a after → At g p v a null)
    → ((b : Ptr) → has b xs ≡ true → b ≢ p → g.item b ≡ h.item b)
    → Chain g first null p xs
cut g (one {p} {v} e f) at same = one (at v null e) f
cut g (more {p} {q} {v} e out c) at same =
    more (at v q e) out (frame c λ b i. same b (ground arith) (λ d. ground arith))

pull_last-Chain :
    {h : Heap} {xs : Cells} {p : Ptr} {c : Ptr × Ptr} (f : ℕ) (q : Queue)
    → IsHeap h
    → q.last ≡ p
    → Chain h q.first null p (c ∷ xs)
    → Returns (Pulled h q c xs) (pull_last (suc (suc f)) q h)
unfolding pull_last unlink set_value set_next
pull_last-Chain {h} {p} f q sane l (one {v} e g) =
    let e' = At-set null null null e in
    rw (l, load_ok e, load_ok e, delete_unlinked f e')
      (returns (
        refl,
        record { linked = (refl, refl); sane = λ a h'. ground (arith, sane a) },
        rw (eq→== p p refl),
        refl,
        refl,
      ))
pull_last-Chain {h} {xs} {p} f q sane l (more {q = s} {v} e out c) =
    let (w, b, d) = head-At c in
    let apart : p ≢ s = λ i. ground (arith, has-head c) in
    let e₁ =
      At-set_ne {p = p} {q = s} (some (record { value = w; prev = b; next = null })) e apart in
    let e₂ = At-set null s null e₁ in
    rw (l, load_ok e, ne→==_false s null d.ne_null, load_ok d, load_ok e₁, delete_unlinked f e₂)
      (returns (
        refl,
        record {
          linked = Chain-Linked (
              cut _ c
                (λ w' b' d'. record {
                  ne_null = d.ne_null;
                  holds = ground (arith, d.holds, d'.holds);
                })
                (λ a i n. ground arith));
          sane = λ a h'. ground (arith, sane a, sane s, d.holds);
        },
        rw (eq→== p p refl),
        refl,
        refl,
      ))

pull-Linked :
    {h : Heap} {c : Ptr × Ptr} {xs : Cells} (f : ℕ) (q : Queue)
    → IsHeap h
    → Chain h q.first null q.last (c ∷ xs)
    → Returns (Pulled h q c xs) (pull (suc (suc f)) q h)
unfolding pull
pull-Linked f q sane c = rw (ne→==_false q.last null (head-ne_null c)) (
    Returns-bind (pull_last-Chain f q sane refl c) λ (r, q', g) (er, is, gone, l, d).
      returns
        (er, record { linked = is.linked; sane = is.sane }, gone, unlock-lock q.thread_lock, d))

-- Queue::pull on a queue that holds items takes out the one that was pushed first: it returns its
-- pointer, frees its list item, keeps the others in their order, destroys no object, and takes and
-- releases the lock.
pub pull-IsQueue :
    {h : Heap} {q : Queue} {c : Ptr × Ptr} {xs : Cells} (f : ℕ)
    → IsQueue h q (c ∷ xs)
    → Returns (Pulled h q c xs) (pull (suc (suc f)) q h)
pull-IsQueue {q} f is = pull-Linked f q is.sane is.linked

-- Queue::pull on a queue that holds nothing returns NULL, and leaves the queue, its lock and its
-- items as they were.
pub pull-empty : {h : Heap} {q : Queue} (f : ℕ) → IsQueue h q [] → pull f q h ≡ ok (null, q, h)
unfolding pull
pull-empty {q} f is = rw (eq→== q.last null is.linked.1, unlock-lock q.thread_lock)
