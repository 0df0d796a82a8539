-- ===== src/Container/Queue/Push.antt =====
-- Queue::push against the list of items.
use magicserver.Prelude.{
  suc, ◌≡◌, ◌≢◌, refl, sym, subst, ◌∙◌, true, false, ◌||◌, [], ◌∷◌, ◌++◌, arith, ◌==◌, ne→==_false,
  eq→==, Returns, returns, Returns-mono,
}
use magicserver.Lock.{unlock-lock}
use magicserver.Memory.{Ptr, null}
use magicserver.Container.Queue.{Heap, Queue, load, push}
use magicserver.Container.Queue.Chain.{
  Cells, has, At, Chain, one, more, Linked, IsHeap, IsQueue, has-first, head-ne_null, unused,
}

has-append : (a : Ptr) (xs : Cells) (p v : Ptr) → has a (xs ++ (p, v) ∷ []) ≡ (has a xs || (a == p))
has-append a [] p v = ground arith
has-append a ((b, w) ∷ xs) p v = ground (arith, has-append a xs p v)

-- The first item's members.
first-At :
    {h : Heap} {first after p : Ptr} {xs : Cells}
    → Chain h first after p xs
    → (v : Ptr) × (b : Ptr) × At h first v null b
first-At {h} (one {after} {v} e f) = (v, after, subst (λ a. At h a v null after) f e)
first-At (more e out c) = first-At c

-- `g` has a new item `p` before the one that was first, and is otherwise as `h` was.
record Extends (h g : Heap) (first p req : Ptr) (xs : Cells) : Type 0 where
  new : At g p req null first
  fresh : has p xs ≡ false
  relinked : (v b : Ptr) → At h first v null b → At g first v p b
  kept : (a : Ptr) → has a xs ≡ true → a ≢ first → g.item a ≡ h.item a

extend :
    {h g : Heap} {first after z : Ptr} {xs : Cells} (p req : Ptr)
    → Chain h first after z xs
    → Extends h g first p req xs
    → Chain g p after z (xs ++ (p, req) ∷ [])
extend {h} {g} p req (one {after} {v} e f) x =
    more
      (subst (λ a. At g a v p after) (sym f)
        (x.relinked v after (subst (λ a. At h a v null after) f e)))
      (ground (arith, x.fresh)) (one (subst (λ a. At g p req null a) (sym f) x.new) refl)
extend {h} {g} {first} p req (more {p = z} {xs} e out c) x =
    more (record { ne_null = e.ne_null; holds = x.kept z (ground arith) (λ q. other q) ∙ e.holds })
      (rw (has-append z xs p req) (ground (arith, x.fresh)))
      (extend p req c (record {
        new = x.new;
        fresh = ground (arith, x.fresh);
        relinked = x.relinked;
        kept = λ a i ne. x.kept a (ground arith) ne;
      }))
  where
    other : z ≡ first → ⊥
    other q = ground (arith, has-first c)

-- What is true after push: the queue stands for one cell more, at the end; its lock is as it was and
-- no object was destroyed.
abbrev pub Pushed : Heap → Queue → Cells → Queue × Heap → Type 0
Pushed h q xs (q', g) = IsQueue g q' xs × (q'.thread_lock ≡ q.thread_lock) × (g.deleted ≡ h.deleted)

push-Chain :
    {h : Heap} {xs : Cells} (req : Ptr) (q : Queue)
    → IsHeap h
    → q.last ≢ null
    → Chain h q.first null q.last xs
    → Returns
        (λ (q', g).
          Chain g q'.first null q'.last (xs ++ (suc h.last_address, req) ∷ [])
          × IsHeap g
          × (q'.thread_lock ≡ q.thread_lock)
          × (g.deleted ≡ h.deleted))
        (push req q h)
unfolding push load
push-Chain {h} {xs} req q sane ne c =
    let (v, b, e) = first-At c in
    rw
      (
        ne→==_false q.first null e.ne_null,
        ne→==_false (suc h.last_address) q.first
            (ground (arith, sane (suc h.last_address), e.holds)),
        e.holds,
        ne→==_false q.last null ne,
      )
      (returns (
        extend (suc h.last_address) req c (record {
          new = record {
            ne_null = omega arith;
            holds = ground (arith, sane (suc h.last_address), e.holds);
          };
          fresh = unused (suc h.last_address) c (sane (suc h.last_address) (omega arith));
          relinked =
              λ w d e'. record { ne_null = e.ne_null; holds = ground (arith, e.holds, e'.holds) };
          kept = λ a i other.
              ground
                (arith, unused (suc h.last_address) c (sane (suc h.last_address) (omega arith)));
        }),
        λ a h'. ground (arith, sane a, sane q.first, e.holds),
        unlock-lock q.thread_lock,
        refl,
      ))

push-Linked :
    {h : Heap} (xs : Cells) (req : Ptr) (q : Queue)
    → IsHeap h
    → Linked h q.first q.last xs
    → Returns (Pushed h q (xs ++ (suc h.last_address, req) ∷ [])) (push req q h)
unfolding push
push-Linked {h} [] req q sane (no_first, no_last) =
    rw (eq→== q.first null no_first, eq→== q.last null no_last)
      (returns (
        record {
          linked =
              one
                (record {
                  ne_null = omega arith;
                  holds =
                      ground
                        (arith, no_first, eq→== (suc h.last_address) (suc h.last_address) refl);
                })
                refl;
          sane = λ a h'. ground (arith, sane a);
        },
        unlock-lock q.thread_lock,
        refl,
      ))
push-Linked (x ∷ xs) req q sane c =
    Returns-mono (push-Chain req q sane (head-ne_null c) c)
      λ (q', g) (c', s, l, d). (record { linked = c'; sane = s }, l, d)

-- Queue::push on a queue that stands for the items `xs` links a new list item with the given pointer
-- behind them; it takes and releases the lock, and destroys nothing.
pub push-IsQueue :
    {h : Heap} {q : Queue} {xs : Cells} (req : Ptr)
    → IsQueue h q xs
    → Returns (Pushed h q (xs ++ (suc h.last_address, req) ∷ [])) (push req q h)
push-IsQueue {q} {xs} req is = push-Linked xs req q is.sane is.linked
