-- ===== src/Server/Events/Reading.antt =====
-- The read loop of descriptorEvent.
use magicserver.Prelude.{
  ℕ, ◌<◌, ◌≡◌, sym, ap, ◌∙◌, List, [], ◌∷◌, ◌++◌, append_assoc, append-nil, arith, pos, negsuc,
  ne→==_false, eq→==, length, ok,
}
use magicserver.Server.Events.{ReadResult, read_error, block, read_buffer_len, read_loop}

-- Blocks that fill the buffer.
abbrev pub AllFull : List (List ℕ) → Type 0
AllFull [] = Unit {0}
AllFull (b ∷ bs) = (length b ≡ read_buffer_len) × AllFull bs

abbrev pub concat : List (List ℕ) → List ℕ
concat [] = []
concat (b ∷ bs) = b ++ concat bs

-- The calls of read give these blocks, and then the rest.
abbrev pub blocks : List (List ℕ) → List ReadResult → List ReadResult
blocks [] rs = rs
blocks (b ∷ bs) rs = block b ∷ blocks bs rs

-- The loop reads on through full blocks, keeping all they hold, in order.
pub read_loop-blocks :
    (bs : List (List ℕ)) (rs : List ReadResult) (bytes : List ℕ)
    → AllFull bs
    → read_loop (blocks bs rs) bytes ≡ read_loop rs (bytes ++ concat bs)
unfolding read_loop
read_loop-blocks [] rs bytes f = ap (read_loop rs) (sym (append-nil bytes))
read_loop-blocks (b ∷ bs) rs bytes (f, fs) =
    rw (ne→==_false (length b) 0 (omega arith), eq→== (length b) read_buffer_len f)
      (read_loop-blocks bs rs (bytes ++ b) fs
        ∙ ap (read_loop rs) (append_assoc bytes b (concat bs)))

-- A block that does not fill the buffer ends the loop.
read_loop-last :
    (last : List ℕ) (rs : List ReadResult) (bytes : List ℕ)
    → length last < read_buffer_len
    → read_loop (block last ∷ rs) bytes ≡ ok (pos (length last), bytes ++ last)
unfolding read_loop
read_loop-last [] rs bytes short = ap (λ b. ok (pos 0, b)) (sym (append-nil bytes))
read_loop-last (x ∷ last) rs bytes short = rw (
  ne→==_false (length (x ∷ last)) 0 (omega arith),
  ne→==_false (length (x ∷ last)) read_buffer_len (omega arith),
)

-- The read loop ends at the first call of read that does not fill the buffer. Its buffer then holds
-- the bytes of all blocks in the order in which they came, those of the last block included; and
-- readcount is the last block's length, 0 where the stream has ended and negative after an error.
pub read_loop-concat :
    (bs : List (List ℕ)) (last : List ℕ) (rs : List ReadResult)
    → AllFull bs
    → length last < read_buffer_len
    → (read_loop (blocks bs (block last ∷ rs)) [] ≡ ok (pos (length last), concat bs ++ last))
      × (read_loop (blocks bs (read_error ∷ rs)) [] ≡ ok (negsuc 0, concat bs))
unfolding read_loop
read_loop-concat bs last rs f short = (
  read_loop-blocks bs (block last ∷ rs) [] f ∙ read_loop-last last rs (concat bs) short,
  read_loop-blocks bs (read_error ∷ rs) [] f,
)
