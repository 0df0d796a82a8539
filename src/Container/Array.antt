-- ===== src/Container/Array.antt =====
-- Class Array of libmsrv/include/magicserver/msrvcontainer.h over an explicit storage: each change
-- allocates a new block, copies what is to stay and frees the old block. An object's fields are a
-- record, and a method returns its result, the new fields and the new storage.
pub mod Contents
pub mod Add
pub mod Copies
pub mod Remove
pub mod Iteration
pub mod Refusals
pub mod Examples
use magicserver.Prelude.{
  ℕ, zero, suc, ◌+◌, Bool, true, not, List, [], ◌∷◌, ℤ, pos, ltb_ℤ, ◌==ℤ◌, ◌+ℤ◌, ◌-ℤ◌,
  if◌then◌else◌, Outcome, ok, out_of_fuel, ◌>>=◌,
}
use magicserver.Errors.{MsrvResult, success, invalid_argument}
use magicserver.Lock.{ThreadLock, new_lock, lock, unlock}
use magicserver.Memory.{Ptr, null, Memory, malloc, free, memcpy, write, read}

-- `items` is NULL, or the address of a block with `item_count` items.
pub record Array : Type 0 where
  pub items : Ptr
  pub item_count : ℤ
  pub thread_lock : ThreadLock

abbrev pub empty : Array
empty = record { items = null; item_count = pos 0; thread_lock = new_lock }

-- int Array::length () const
abbrev pub array_length : Array → ℤ
array_length a = a.item_count

module _ {A : Type 0} where
  -- MSrvResult Array::add (TYPE* item)
  pub add : A → Array → Memory A → Outcome (MsrvResult × Array × Memory A)
  add item a m = do
    let locked = lock a.thread_lock
    let (new, m₁) = malloc (a.item_count +ℤ pos 1) m
    m₂ ←
        if ltb_ℤ (pos 0) a.item_count
        then memcpy new (pos 0) a.items (pos 0) a.item_count m₁
        else ok m₁
    m₃ ← write new a.item_count item m₂
    m₄ ← free a.items m₃
    ok (
      success,
      record { items = new; item_count = a.item_count +ℤ pos 1; thread_lock = unlock locked },
      m₄,
    )

  -- The lower part of the array, if there is one.
  pub copy_lower : ℤ → Array → Ptr → Memory A → Outcome (Memory A)
  copy_lower at a new m = if ltb_ℤ (pos 0) at then memcpy new (pos 0) a.items (pos 0) at m else ok m

  -- The upper part, one step down, under the source's condition.
  pub copy_upper : ℤ → Array → Ptr → Memory A → Outcome (Memory A)
  copy_upper at a new m =
      if ltb_ℤ at (a.item_count -ℤ at)
      then memcpy new at a.items (at +ℤ pos 1) (a.item_count -ℤ at -ℤ pos 1) m
      else ok m

  -- The storage part of remove: the new block's address and the storage.
  remove_item : ℤ → Array → Memory A → Outcome (Ptr × Memory A)
  unfolding copy_lower copy_upper
  remove_item at a m =
      if a.item_count ==ℤ pos 1 then (do m₁ ← free a.items m; ok (null, m₁)) else do
        let (new, m₁) = malloc (a.item_count -ℤ pos 1) m
        m₂ ← copy_lower at a new m₁
        m₃ ← copy_upper at a new m₂
        m₄ ← free a.items m₃
        ok (new, m₄)

  -- MSrvResult Array::remove (int pos). The early return leaves the lock held.
  pub remove : ℤ → Array → Memory A → Outcome (MsrvResult × Array × Memory A)
  unfolding remove_item
  remove at a m =
      let locked = lock a.thread_lock in
      if ltb_ℤ a.item_count at
      then ok (invalid_argument, record a { thread_lock = locked }, m)
      else do
        (p, m₁) ← remove_item at a m
        ok (
          success,
          record { items = p; item_count = a.item_count -ℤ pos 1; thread_lock = unlock locked },
          m₁,
        )

  -- TYPE& Array::operator[] (int pos), read
  pub at_index : Array → ℤ → Memory A → Outcome A
  at_index a i m = read a.items i m

-- Class Array::Iterator. Its field mrArray is no reference: the constructor copies the array's
-- fields, so the iterator keeps the block that the array had.
pub record Iterator : Type 0 where
  pub position : ℤ
  pub array : Array

unfoldable pub iterate : Array → Iterator
iterate a = record { position = pos 0; array = a }

module _ {A : Type 0} where
  -- TYPE& Iterator::get ()
  unfoldable pub get : Iterator → Memory A → Outcome A
  unfolding at_index
  get it m = at_index it.array it.position m

-- void Iterator::next ()
unfoldable pub next : Iterator → Iterator
next it = record it { position = it.position +ℤ pos 1 }

-- bool Iterator::exhausted ()
pub exhausted : Iterator → Bool
exhausted it = not (ltb_ℤ it.position (array_length it.array))

-- for (Iterator i (array); !i.exhausted (); i.next ()) collect i.get (), with fuel.
pub visit : {A : Type 0} → ℕ → Iterator → Memory A → Outcome (List A)
visit zero it m = out_of_fuel
visit (suc f) it m = elim (exhausted it) [
  | true ↦ ok []
  | _ ↦ do a ← get it m; rest ← visit f (next it) m; ok (a ∷ rest)
]
