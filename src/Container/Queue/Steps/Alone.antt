-- ===== src/Container/Queue/Steps/Alone.antt =====
-- The steps of push and of pull, when no other thread's step comes between.
use magicserver.Prelude.{
  ◌≡◌, ◌≢◌, refl, sym, subst, arith, Bool-cases, inl, inr, none, some, ◌==◌, if◌then◌else◌, Outcome,
  ok, fault, out_of_fuel, ◌>>=◌,
}
use magicserver.Lock.{ThreadLock, lock, unlock}
use magicserver.Lock.Threads.{more}
use magicserver.Lock.Threads.Atomic.{Alone, end, onward}
use magicserver.Memory.{Ptr, null}
use magicserver.Container.Queue.{
  ListItem, Heap, Queue, load, new_item, set_prev, set_next, set_value, delete_item, push, pull,
  pull_last, unlink,
}
use magicserver.Container.Queue.Steps.{
  push_lock, push_prev, push_last, pull_lock, pull_get, pull_prev, pull_next, pull_set, pull_delete,
  pull_unlock, Store, Result, queue_step, queue_code,
}

-- A run in two parts that has a result.
parts :
    {A B P : Type 0} {r : Outcome A} {f : A → Outcome B} {b : B}
    → (do a ← r; f a) ≡ ok b
    → ((a : A) → r ≡ ok a → f a ≡ ok b → P)
    → P
parts {r = ok a} e k = k a refl e
parts {r = fault x} e k = absurd (cc e)
parts {r = out_of_fuel} e k = absurd (cc e)

ok-injective : {A : Type 0} {a b : A} → ok a ≡ ok b → a ≡ b
ok-injective e = cc e

prev_step :
    (q : Queue) (h h₁ : Heap) (old : Ptr)
    → (if old == null then ok h else set_prev old q.first h) ≡ ok h₁
    → queue_step (push_prev old) (q, h) ≡ ok (more push_last, (q, h₁))
unfolding queue_step
prev_step q h h₁ old e = rw e refl

next_step :
    (q : Queue) (h h₁ : Heap) (last result : Ptr)
    → set_next q.last null h ≡ ok h₁
    → queue_step (pull_next last result) (q, h) ≡ ok (more (pull_set last result), (q, h₁))
unfolding queue_step
next_step q h h₁ last result e = rw e refl

get_step :
    (q : Queue) (h : Heap) (i : ListItem) (last : Ptr)
    → load last h ≡ ok i
    → queue_step (pull_get last) (q, h) ≡ ok (more (pull_prev last i.value), (q, h))
unfolding queue_step
get_step q h i last e = rw e refl

set_step :
    (q : Queue) (h h₁ : Heap) (last result : Ptr)
    → set_value last null h ≡ ok h₁
    → queue_step (pull_set last result) (q, h) ≡ ok (more (pull_delete last result), (q, h₁))
unfolding queue_step
set_step q h h₁ last result e = rw e refl

delete_step :
    (q : Queue) (h h₁ : Heap) (last result : Ptr)
    → delete_item 2 last h ≡ ok h₁
    → queue_step (pull_delete last result) (q, h) ≡ ok (more (pull_unlock result), (q, h₁))
unfolding queue_step
delete_step q h h₁ last result e = rw e refl

-- A push that nothing interrupts.
pub push-Alone :
    {h : Heap} {q : Queue} {s : Store} (v : Ptr)
    → q.thread_lock.held ≡ 0
    → push v q h ≡ ok s
    → Alone queue_code (push_lock v) (q, h) none s
unfolding push queue_step lock unlock
push-Alone {h} {q} {s} v free e =
    let (p, h₁) = new_item v q.first h in
    parts {r = if q.first == null then ok h₁ else set_prev q.first p h₁} e λ h₂ e₁ e₂.
      subst (λ x. Alone queue_code (push_lock v) (q, h) none x) (ok-injective e₂)
        (onward refl (omega arith) (
          onward refl (omega arith) (
            onward refl (omega arith) (
              onward (prev_step _ _ _ _ e₁) (omega arith)
                (onward refl (omega arith) (end refl (omega (arith, free))))))))

-- A queue with its lock in this state.
abbrev with_lock : ThreadLock → Queue → Queue
with_lock l q = record q { thread_lock = l }

-- The links, once the last item is known, and what follows.
unlink-Alone :
    {h h₁ : Heap} {q₁ : Queue} {s : Store} {r : Result} {i : ListItem} (q : Queue) (l : ThreadLock)
    (result last : Ptr)
    → load last h ≡ ok i
    → l.held ≢ 0
    → unlink i q h ≡ ok (q₁, h₁)
    → Alone queue_code (pull_set last result) (with_lock l q₁, h₁) r s
    → Alone queue_code (pull_prev last result) (with_lock l q, h) r s
unfolding unlink queue_step
unlink-Alone {h} {h₁} {q₁} {s} {r} {i} q l result last found locked e rest =
    elim (Bool-cases (i.prev == null)) [
      | inl z ↦
          onward {s₁ = (with_lock l (record q { first = null; last = null }), h)}
            (rw (found, z) refl) locked
            (moved (record q { first = null; last = null }, h) (rw z at e))
      | inr z ↦ parts {r = set_next i.prev null h} (rw z at e) λ h₂ e₁ e₂.
          onward {k' = pull_next last result} {s₁ = (with_lock l (record q { last = i.prev }), h)}
            (rw (found, z) refl) locked
            (onward (next_step (record q { last = i.prev; thread_lock = l }) h h₂ last result e₁)
              locked (moved (record q { last = i.prev }, h₂) e₂))
    ]
  where
    moved :
        (x : Store)
        → ok x ≡ ok (q₁, h₁)
        → Alone queue_code (pull_set last result) (with_lock l x.0, x.1) r s
    moved x d =
        subst (λ y. Alone queue_code (pull_set last result) (with_lock l y.0, y.1) r s)
          (sym (ok-injective d)) rest

pull_last-Alone :
    {h h₁ : Heap} {q₁ : Queue} {v : Ptr} (q : Queue) (l : ThreadLock)
    → l.held ≡ 1
    → pull_last 2 q h ≡ ok (v, q₁, h₁)
    → Alone queue_code (pull_get q.last) (with_lock l q, h) (some v) (with_lock (unlock l) q₁, h₁)
unfolding pull_last queue_step unlock
pull_last-Alone {h} {h₁} {q₁} {v} q l once e = parts {r = load q.last h} e λ i found e₁.
    parts {r = unlink i q h} e₁ λ (q₂, h₂) linked e₂.
      parts {r = set_value q.last null h₂} e₂ λ h₃ cleared e₃.
        parts {r = delete_item 2 q.last h₃} e₃ λ h₄ deleted e₄.
          onward (get_step (with_lock l q) h i q.last found) (omega arith) (
            unlink-Alone q l i.value q.last found (omega arith) linked (
              onward (set_step (with_lock l q₂) h₂ h₃ q.last i.value cleared) (omega arith) (
                onward (delete_step (with_lock l q₂) h₃ h₄ q.last i.value deleted) (omega arith) (
                  subst
                    (λ (x : Ptr × Queue × Heap).
                      Alone queue_code (pull_unlock i.value) (with_lock l q₂, h₄) (some x.0)
                        (with_lock (unlock l) x.1, x.2))
                    (ok-injective e₄) (end refl (omega arith))))))

-- A pull that nothing interrupts.
pub pull-Alone :
    {h h₁ : Heap} {q q₁ : Queue} {v : Ptr}
    → q.thread_lock.held ≡ 0
    → pull 2 q h ≡ ok (v, q₁, h₁)
    → Alone queue_code pull_lock (q, h) (some v) (q₁, h₁)
unfolding pull queue_step lock unlock
pull-Alone {h} {h₁} {q} {q₁} {v} free e = elim (Bool-cases (q.last == null)) [
  | inl z ↦ onward refl (omega arith) (
      onward (rw z refl) (omega arith) (
        subst
          (λ (x : Ptr × Queue × Heap).
            Alone queue_code (pull_unlock null) (with_lock (lock q.thread_lock) q, h) (some x.0)
              (x.1, x.2))
          (ok-injective (rw z at e)) (end refl (omega (arith, free)))))
  | inr z ↦ parts {r = pull_last 2 q h} (rw z at e) λ (v₁, q₂, h₂) e₁ e₂.
      onward refl (omega arith) (
        onward (rw z refl) (omega arith) (
          subst
            (λ (x : Ptr × Queue × Heap).
              Alone queue_code (pull_get q.last) (with_lock (lock q.thread_lock) q, h) (some x.0)
                (x.1, x.2))
            (ok-injective e₂) (pull_last-Alone q (lock q.thread_lock) (omega (arith, free)) e₁)))
]
