-- ===== src/Container/Array/Examples.antt =====
-- The theorems on arrays at an array of four numbers.
use magicserver.Prelude.{
  ℕ, ◌≡◌, refl, some, none, List, [], ◌∷◌, arith, pos, ◌==◌, if◌then◌else◌, ok, fault,
  out_of_bounds, dangling, uninitialised, Returns,
}
use magicserver.Errors.{success}
use magicserver.Lock.{new_lock}
use magicserver.Memory.{Memory}
use magicserver.Memory.Laws.{IsMemory}
use magicserver.Container.Array.{Array, iterate, get, visit, at_index, add, remove}
use magicserver.Container.Array.Contents.{full, IsArray}
use magicserver.Container.Array.Add.{Added, add-append}
use magicserver.Container.Array.Remove.{Removed, remove_middle, remove_loses}
use magicserver.Container.Array.Iteration.{visit-IsArray, stale_get}
use magicserver.Container.Array.Refusals.{remove_at_end}

abbrev four : List ℕ
four = 10 ∷ 20 ∷ 30 ∷ 40 ∷ []

abbrev storage : Memory ℕ
storage = record { last = 1; block = λ p. if p == 1 then some (full four) else none }

abbrev array : Array
array = record { items = 1; item_count = pos 4; thread_lock = new_lock }

storage-IsMemory : IsMemory storage
storage-IsMemory p h = ground arith

four-IsArray : IsArray storage array four
four-IsArray = record { count = refl; stored = record { ne_null = omega arith; stored = refl } }

add-append_example :
    Returns (Added storage array (10 ∷ 20 ∷ 30 ∷ 40 ∷ 50 ∷ [])) (add 50 array storage)
add-append_example = add-append 50 storage-IsMemory four-IsArray

remove_middle_example :
    Returns (Removed storage array (10 ∷ []) (30 ∷ 40 ∷ [])) (remove (pos 1) array storage)
remove_middle_example = remove_middle (10 ∷ []) 20 (30 ∷ 40 ∷ []) storage-IsMemory four-IsArray

remove_loses_example :
    Returns
      (λ (r, a', m'). (r ≡ success) × (at_index a' (pos 2) m' ≡ fault uninitialised))
      (remove (pos 2) array storage)
remove_loses_example =
    remove_loses (10 ∷ 20 ∷ []) 30 (40 ∷ []) 0 storage-IsMemory four-IsArray (omega arith)
      (omega arith)

behind_the_end : remove (pos 4) array storage ≡ fault out_of_bounds
behind_the_end = remove_at_end 10 20 (30 ∷ 40 ∷ []) storage-IsMemory four-IsArray

all_visited : visit 5 (iterate array) storage ≡ ok four
all_visited = visit-IsArray 5 four-IsArray (omega arith)

stale_get_example :
    Returns
      (λ (r, a', n). get (record { position = pos 2; array = array }) n ≡ fault dangling)
      (add 50 array storage)
    × Returns
        (λ (r, a', n). get (record { position = pos 2; array = array }) n ≡ fault dangling)
        (remove (pos 1) array storage)
stale_get_example = stale_get (10 ∷ []) 20 (30 ∷ 40 ∷ []) 50 (pos 2) storage-IsMemory four-IsArray
