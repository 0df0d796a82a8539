-- ===== src/Server/Events/Buffer.antt =====
-- libmsrv/src/msrvserver.cc, ServerListener::descriptorEvent: the read loop as Server/Events has it,
-- but with its dynamic buffer in storage, and `int` arithmetic on its size.
pub mod Growth
pub mod Lifetime
use magicserver.Prelude.{
  ℕ, ◌+◌, Bool, true, false, leb, fault, overflow, some, List, [], ◌∷◌, map, ℤ, pos, negsuc, ◌==◌,
  if◌then◌else◌, length, Outcome, ok, out_of_fuel, out_of_bounds, ◌>>=◌, or_fault,
}
use magicserver.Memory.{Ptr, Memory, null, set_block, splice, deref, malloc, realloc}
use magicserver.Container.Array.Contents.{full}
use magicserver.Server.Events.{ReadResult, read_error, block, read_buffer_len}

-- The greatest `int`, of 32 bits.
abbrev pub int_max : ℕ
int_max = 2_147_483_647

-- A sum of two `int`s that are not negative.
unfoldable pub add_int : ℕ → ℕ → Outcome ℕ
add_int a b = if leb (a + b) int_max then ok (a + b) else fault overflow

-- Room for a new block of bytes behind the `dynpos` bytes that are there, and the copy. `gives` says of
-- which sizes malloc and realloc have a block; without one they return NULL, which is not tested for.
pub grow : (ℕ → Bool) → Ptr → ℕ → List ℕ → Memory ℕ → Outcome (Ptr × Memory ℕ)
unfolding add_int
grow gives dynbuffer dynpos new m = do
  size ← if dynbuffer == null then ok (length new) else add_int dynpos (length new)
  (p, m₁) ←
      if gives size
      then (if dynbuffer == null then ok (malloc (pos size) m) else realloc dynbuffer size m)
      else ok (null, m)
  cells ← deref p m₁
  copied ← or_fault out_of_bounds (splice dynpos (full new) cells)
  ok (p, set_block m₁ p (some copied))

-- The read loop: the last value of readcount, dynbuffer, dynpos and the storage.
pub read_into : (ℕ → Bool) → List ReadResult → Ptr → ℕ → Memory ℕ → Outcome (ℤ × Ptr × ℕ × Memory ℕ)
unfolding grow add_int
read_into gives [] dynbuffer dynpos m = out_of_fuel
read_into gives (read_error ∷ rs) dynbuffer dynpos m = ok (negsuc 0, dynbuffer, dynpos, m)
read_into gives (block new ∷ rs) dynbuffer dynpos m = elim (length new == 0) [
  | true ↦ ok (pos 0, dynbuffer, dynpos, m)
  | false ↦ do
    (p, m₁) ← grow gives dynbuffer dynpos new m
    size ← add_int dynpos (length new)
    elim (length new == read_buffer_len) [
      | true ↦ read_into gives rs p size m₁
      | false ↦ ok (pos (length new), p, size, m₁)
    ]
]
