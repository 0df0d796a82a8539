-- ===== src/Container/Queue.antt =====
-- Classes ListItem and Queue of libmsrv/include/magicserver/msrvcontainer.h over an explicit heap of
-- list items. What the queue holds are pointers; `deleted` lists the objects that were destroyed
-- through them, oldest first. An item that `new` makes has an address that was never handed out.
pub mod Chain
pub mod Push
pub mod Pull
pub mod Sequence
pub mod Destroy
pub mod Steps
pub mod Examples
use magicserver.Prelude.{
  ℕ, zero, suc, Bool, true, false, ◌||◌, bad_free, Option, none, some, List, [], ◌∷◌, ◌++◌, ◌==◌,
  if◌then◌else◌, Outcome, ok, fault, out_of_fuel, null_pointer, dangling, ◌>>=◌, or_fault,
}
use magicserver.Lock.{ThreadLock, new_lock, lock, unlock}
use magicserver.Memory.{Ptr, null}

-- Class ListItem: `value` is its member mpData.
pub record ListItem : Type 0 where
  pub value : Ptr
  pub prev : Ptr
  pub next : Ptr

pub record Heap : Type 0 where
  pub last_address : Ptr
  pub item : Ptr → Option ListItem
  pub deleted : List Ptr

abbrev pub set_item : Heap → Ptr → Option ListItem → Heap
set_item h p i = record h { item = λ q. if p == q then i else h.item q }

pub record Queue : Type 0 where
  pub first : Ptr
  pub last : Ptr
  pub thread_lock : ThreadLock

-- Queue::Queue ()
abbrev pub new_queue : Queue
new_queue = record { first = null; last = null; thread_lock = new_lock }

-- `p->`
unfoldable pub load : Ptr → Heap → Outcome ListItem
load p h = if p == null then fault null_pointer else or_fault dangling (h.item p)

-- new ListItem (req, pNext)
pub new_item : Ptr → Ptr → Heap → Ptr × Heap
new_item req next h =
    let p = suc h.last_address in
    (
      p,
      record h {
        last_address = p;
        item = (set_item h p (some (record { value = req; prev = null; next = next }))).item;
      },
    )

-- ListItem::setPrev, setNext and set
pub set_prev : Ptr → Ptr → Heap → Outcome Heap
set_prev p q h = do i ← load p h; ok (set_item h p (some (record i { prev = q })))

pub set_next : Ptr → Ptr → Heap → Outcome Heap
set_next p q h = do i ← load p h; ok (set_item h p (some (record i { next = q })))

pub set_value : Ptr → Ptr → Heap → Outcome Heap
set_value p v h = do i ← load p h; ok (set_item h p (some (record i { value = v })))

unfoldable pub is_deleted : Ptr → List Ptr → Bool
is_deleted v [] = false
is_deleted v (w ∷ ws) = (w == v) || is_deleted v ws

-- delete of an object: nothing happens at NULL, and no object is deleted twice.
pub delete_value : Ptr → Heap → Outcome Heap
unfolding is_deleted
delete_value v h =
    if v == null
    then ok h
    else if is_deleted v h.deleted
    then fault bad_free
    else ok (record h { deleted = h.deleted ++ v ∷ [] })

-- delete of a list item, with ListItem::~ListItem (): its object, then the items that follow it.
pub delete_item : ℕ → Ptr → Heap → Outcome Heap
unfolding delete_value
delete_item zero p h = out_of_fuel
delete_item (suc f) p h = if p == null then ok h else do
  i ← load p h
  h₀ ← delete_value i.value h
  h₁ ← delete_item f i.next h₀
  ok (set_item h₁ p none)

-- void Queue::push (TYPE* pItem)
pub push : Ptr → Queue → Heap → Outcome (Queue × Heap)
unfolding new_item set_prev lock unlock
push req q h = do
  let locked = lock q.thread_lock
  let (p, h₁) = new_item req q.first h
  h₂ ← if q.first == null then ok h₁ else set_prev q.first p h₁
  ok (
    record { first = p; last = if q.last == null then p else q.last; thread_lock = unlock locked },
    h₂,
  )

-- Taking the last item out of the links.
pub unlink : ListItem → Queue → Heap → Outcome (Queue × Heap)
unfolding set_next
unlink i q h =
    if i.prev == null
    then ok (record q { first = null; last = null }, h)
    else do h₁ ← set_next i.prev null h; ok (record q { last = i.prev }, h₁)

pub pull_last : ℕ → Queue → Heap → Outcome (Ptr × Queue × Heap)
unfolding unlink set_value delete_item
pull_last fuel q h = do
  i ← load q.last h
  (q₁, h₁) ← unlink i q h
  h₂ ← set_value q.last null h₁
  h₃ ← delete_item fuel q.last h₂
  ok (i.value, q₁, h₃)

-- TYPE* Queue::pull (). The fuel is for the destructor of the item that is taken out.
pub pull : ℕ → Queue → Heap → Outcome (Ptr × Queue × Heap)
unfolding lock unlock
pull fuel q h =
    let locked = lock q.thread_lock in
    if q.last == null
    then ok (null, record q { thread_lock = unlock locked }, h)
    else do (v, q₁, h₁) ← pull_last fuel q h; ok (v, record q₁ { thread_lock = unlock locked }, h₁)

-- Queue::~Queue ()
pub destroy : ℕ → Queue → Heap → Outcome (Queue × Heap)
unfolding delete_item lock unlock
destroy fuel q h = do
  let locked = lock q.thread_lock
  h₁ ← delete_item fuel q.first h
  ok (record q { thread_lock = unlock locked }, h₁)
