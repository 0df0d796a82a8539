-- ===== src/Server/Events/Buffer/Growth.antt =====
-- What a round of the read loop does to the buffer.
use magicserver.Prelude.{
  ℕ, Bool, zero, suc, ◌+◌, ◌-◌, ◌≤◌, ◌≡◌, ◌≢◌, refl, sym, ap, ◌∙◌, inl, inr, Bool-cases, true,
  false, Option, none, some, List, [], ◌∷◌, ◌++◌, append-nil, map-append, take, replicate, arith,
  pos, ◌==◌, ne→==_false, length, length-replicate, ok, Returns, returns,
}
use magicserver.Memory.{Ptr, Memory, Block, null, set_block, splice, malloc, realloc}
use magicserver.Memory.Laws.{
  Holds, IsMemory, splice_middle, deref_ok, free_ok, Holds-set_self, IsMemory-set, Holds-le,
}
use magicserver.Memory.Fresh.{malloc-Fresh}
use magicserver.Container.Array.Contents.{full, length-full}
use magicserver.Server.Events.Buffer.{int_max, add_int, grow}

-- The storage `m` has what `m₀` has, and the bytes in a block of their own, if there are any.
pub data IsBuffer (m₀ : Memory ℕ) : Memory ℕ → Ptr → List ℕ → Type 0 where
  no_buffer : IsBuffer m₀ m₀ null []
  buffer :
      {m : Memory ℕ} {p : Ptr} {bytes : List ℕ}
      → Holds m p (full bytes)
      → m₀.block p ≡ none
      → ((q : Ptr) → p ≢ q → m.block q ≡ m₀.block q)
      → IsMemory m
      → IsBuffer m₀ m p bytes

pub equal : (a b : ℕ) → (a == b) ≡ true → a ≡ b
equal a b h = ground arith

pub differ : (a b : ℕ) → (a == b) ≡ false → a ≢ b
differ a b h = ground arith

take_all : {A : Type 0} (xs : List A) (n : ℕ) → length xs ≤ n → take n xs ≡ xs
take_all [] zero h = refl
take_all [] (suc n) h = refl
take_all (x ∷ xs) zero h = absurd (omega arith)
take_all (x ∷ xs) (suc n) h = ap (x ∷◌) (take_all xs n (omega arith))

splice_new :
    (bytes new : List ℕ)
    → splice (length bytes) (full new) (full bytes ++ replicate (length new) none)
      ≡ some (full (bytes ++ new))
splice_new bytes new =
    ap (λ l. splice (length bytes) (full new) (full bytes ++ l))
      (sym (append-nil (replicate (length new) none)))
    ∙ splice_middle (full bytes) (replicate (length new) none) [] (full new) (length bytes)
        (sym (length-full bytes))
        (omega (arith, length-full new, length-replicate {A = Option ℕ} (length new) none))
    ∙ ap some (ap (λ l. full bytes ++ l) (append-nil (full new)) ∙ sym (map-append some bytes new))

-- A longer block begins with the bytes, and its other cells are not written.
realloc_lem :
    {m : Memory ℕ} {p : Ptr} (bytes : List ℕ) (k : ℕ)
    → Holds m p (full bytes)
    → realloc p (length bytes + k) m
      ≡ ok (
        suc m.last,
        set_block
            (record (set_block m p none) { last = suc m.last })
            (suc m.last)
            (some (full bytes ++ replicate k none)),
      )
unfolding realloc
realloc_lem bytes k h =
    let count : (length bytes + k) - length (full bytes) ≡ k = omega (arith, length-full bytes) in
    rw (deref_ok h, free_ok h)
      (rw (take_all (full bytes) (length bytes + k) (omega (arith, length-full bytes)), count))

pub add_int_ok : (a b : ℕ) → a + b ≤ int_max → add_int a b ≡ ok (a + b)
unfolding add_int
add_int_ok a b h = ground arith

grow-first :
    {m₀ : Memory ℕ} (gives : ℕ → Bool) (new : List ℕ)
    → IsMemory m₀
    → gives (length new) ≡ true
    → Returns (λ (q, m). IsBuffer m₀ m q new) (grow gives null 0 new m₀)
unfolding grow malloc
grow-first {m₀} gives new sane room =
    let q = suc m₀.last in
    let m₁ : Memory ℕ = (malloc (pos (length new)) m₀).1 in
    let f = malloc-Fresh (length new) m₀ sane in
    rw (room, deref_ok f.holds)
      (rw (splice_new [] new) (
        returns (
          buffer (Holds-set_self m₁ q (full new) f.holds.ne_null) (sane q (omega arith))
            (λ r ne. rw (ne→==_false q r ne))
            (IsMemory-set m₁ q (some (full new)) f.holds f.sane))))

-- The memory after a block was moved to a new address.
moved : Memory ℕ → Ptr → Block ℕ → Memory ℕ
moved m p b = set_block (record (set_block m p none) { last = suc m.last }) (suc m.last) (some b)

moved-IsBuffer :
    {m₀ m : Memory ℕ} {p : Ptr} (bytes new : List ℕ)
    → Holds m p (full bytes)
    → m₀.block p ≡ none
    → ((q : Ptr) → p ≢ q → m.block q ≡ m₀.block q)
    → IsMemory m
    → IsBuffer m₀
        (set_block
          (moved m p (full bytes ++ replicate (length new) none))
          (suc m.last)
          (some (full (bytes ++ new))))
        (suc m.last)
        (bytes ++ new)
unfolding moved
moved-IsBuffer {m₀} {m} {p} bytes new h gone same sane =
    let q = suc m.last in
    let apart : p ≢ q = omega (arith, Holds-le sane h) in
    buffer
      (Holds-set_self (moved m p (full bytes ++ replicate (length new) none)) q
        (full (bytes ++ new)) (omega arith))
      (sym (same q apart) ∙ sane q (omega arith))
      (λ r ne. rw (ne→==_false q r ne) (elim (Bool-cases (p == r)) [
        | inl e ↦ rw e (sym gone ∙ ap m₀.block (equal p r e))
        | inr e ↦ rw e (same r (differ p r e))
      ]))
      (λ r high.
        rw (ne→==_false q r (omega arith), ne→==_false p r (omega (arith, Holds-le sane h)))
          (sane r (omega arith)))

pub grow-IsBuffer :
    {m₀ m : Memory ℕ} {p : Ptr} (gives : ℕ → Bool) (bytes new : List ℕ)
    → IsMemory m₀
    → IsBuffer m₀ m p bytes
    → length bytes + length new ≤ int_max
    → gives (length bytes + length new) ≡ true
    → Returns (λ (q, m'). IsBuffer m₀ m' q (bytes ++ new)) (grow gives p (length bytes) new m)
unfolding grow moved
grow-IsBuffer gives [] new sane no_buffer fits room =
    grow-first gives new sane (ap gives {x = length new} {y = 0 + length new} (omega arith) ∙ room)
grow-IsBuffer {m₀} {m} {p} gives bytes new sane (buffer h gone same sane') fits room =
    let cells = full bytes ++ replicate (length new) none in
    rw
      (
        ne→==_false p null h.ne_null,
        add_int_ok (length bytes) (length new) fits,
        room,
        realloc_lem bytes (length new) h,
      )
      (rw
        (deref_ok (
          Holds-set_self (record (set_block m p none) { last = suc m.last }) (suc m.last) cells
            (omega arith)))
        (rw (splice_new bytes new) (returns (moved-IsBuffer bytes new h gone same sane'))))
