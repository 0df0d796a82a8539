-- ===== src/Server/Events/Buffer/Lifetime.antt =====
-- The buffer of the read loop, against the list of bytes, and from its allocation to its end.
use magicserver.Prelude.{
  out_of_fuel, ℕ, Bool, ◌+◌, ◌≤◌, arith, ◌≡◌, refl, sym, ap, subst, ◌∙◌, inl, inr, Bool-cases, true,
  false, List, [], ◌∷◌, ◌++◌, ℤ, pos, ◌==◌, ne→==_false, length, length-append, ok, ◌>>=◌, Returns,
  returns, Returns-bind,
}
use magicserver.Memory.{Ptr, Memory, null, free}
use magicserver.Memory.Laws.{IsMemory}
use magicserver.Request.Data.{Delete, new_data_request, set_data, delete_data}
use magicserver.Server.Events.{ReadResult, read_error, block, read_buffer_len, read_loop}
use magicserver.Server.Events.Buffer.{int_max, read_into}
use magicserver.Server.Events.Buffer.Growth.{
  IsBuffer, no_buffer, buffer, equal, differ, add_int_ok, grow-IsBuffer,
}

-- What the list of bytes says of the run with the buffer.
abbrev pub Matches : Memory ℕ → ℤ × List ℕ → ℤ × Ptr × ℕ × Memory ℕ → Type 0
Matches m₀ (count, bytes) (count', p, n, m) =
    (count' ≡ count) × (n ≡ length bytes) × IsBuffer m₀ m p bytes

ok_injective : {A : Type 0} {a b : A} → ok a ≡ ok b → a ≡ b
ok_injective h = cc

read_end :
    (new bytes : List ℕ) (rs : List ReadResult)
    → (length new == 0) ≡ true
    → read_loop (block new ∷ rs) bytes ≡ ok (pos 0, bytes)
unfolding read_loop
read_end new bytes rs z = rw z

read_last :
    (new bytes : List ℕ) (rs : List ReadResult)
    → (length new == 0) ≡ false
    → (length new == read_buffer_len) ≡ false
    → read_loop (block new ∷ rs) bytes ≡ ok (pos (length new), bytes ++ new)
unfolding read_loop
read_last new bytes rs nz part = rw (nz, part)

read_more :
    (new bytes : List ℕ) (rs : List ReadResult)
    → (length new == 0) ≡ false
    → (length new == read_buffer_len) ≡ true
    → read_loop (block new ∷ rs) bytes ≡ read_loop rs (bytes ++ new)
unfolding read_loop
read_more new bytes rs nz whole = rw (nz, whole)

-- The loop never forgets a byte.
read_loop-longer :
    (rs : List ReadResult) (bytes : List ℕ) (out : ℤ × List ℕ)
    → read_loop rs bytes ≡ ok out
    → length bytes ≤ length out.1
unfolding read_loop
read_loop-longer [] bytes out e = absurd (no_fuel e)
  where
    no_fuel : out_of_fuel ≡ ok out → ⊥
    no_fuel q = cc
read_loop-longer (read_error ∷ rs) bytes out e =
    subst (λ o. length bytes ≤ length o.1) (ok_injective e) (omega arith)
read_loop-longer (block new ∷ rs) bytes out e = elim (Bool-cases (length new == 0)) [
  | inl z ↦
      subst (λ o. length bytes ≤ length o.1) (ok_injective (sym (read_end new bytes rs z) ∙ e))
        (omega arith)
  | inr nz ↦ elim (Bool-cases (length new == read_buffer_len)) [
    | inl whole ↦ omega (
      arith,
      read_loop-longer rs (bytes ++ new) out (sym (read_more new bytes rs nz whole) ∙ e),
      length-append bytes new,
    )
    | inr part ↦
        subst (λ o. length bytes ≤ length o.1)
          (ok_injective (sym (read_last new bytes rs nz part) ∙ e))
          (omega (arith, length-append bytes new))
  ]
]

-- Nor in a round that gives bytes.
read_block-longer :
    (new : List ℕ) (rs : List ReadResult) (bytes : List ℕ) (out : ℤ × List ℕ)
    → (length new == 0) ≡ false
    → read_loop (block new ∷ rs) bytes ≡ ok out
    → length bytes + length new ≤ length out.1
read_block-longer new rs bytes out nz e = elim (Bool-cases (length new == read_buffer_len)) [
  | inl whole ↦ omega (
    arith,
    read_loop-longer rs (bytes ++ new) out (sym (read_more new bytes rs nz whole) ∙ e),
    length-append bytes new,
  )
  | inr part ↦
      subst (λ o. length bytes + length new ≤ length o.1)
        (ok_injective (sym (read_last new bytes rs nz part) ∙ e))
        (omega (arith, length-append bytes new))
]

-- With a block for each size that comes up, none of which is beyond the greatest `int`, the read loop
-- with its buffer in storage never fails, and agrees with the loop on lists.
read_into-Matches :
    {m₀ m : Memory ℕ} {p : Ptr} (gives : ℕ → Bool) (rs : List ReadResult) (bytes : List ℕ)
    (out : ℤ × List ℕ)
    → IsMemory m₀
    → length out.1 ≤ int_max
    → ((n : ℕ) → n ≤ length out.1 → gives n ≡ true)
    → IsBuffer m₀ m p bytes
    → read_loop rs bytes ≡ ok out
    → Returns (Matches m₀ out) (read_into gives rs p (length bytes) m)
unfolding read_loop read_into
read_into-Matches gives [] bytes out sane fits room is e = absurd (fuel e)
  where
    fuel : out_of_fuel ≡ ok out → ⊥
    fuel q = cc
read_into-Matches {m₀} {m} {p} gives (read_error ∷ rs) bytes out sane fits room is e =
    subst (λ o. Returns (Matches m₀ o) (read_into gives (read_error ∷ rs) p (length bytes) m))
      (ok_injective e) (returns (refl, refl, is))
read_into-Matches {m₀} {m} {p} gives (block new ∷ rs) bytes out sane fits room is e =
    elim (Bool-cases (length new == 0)) [
      | inl z ↦
          rw (z, read_into)
            (subst (λ o. Returns (Matches m₀ o) (ok (pos 0, p, length bytes, m)))
              (ok_injective (sym (read_end new bytes rs z) ∙ e)) (returns (refl, refl, is)))
      | inr nz ↦
          let low : length bytes + length new ≤ length out.1 =
            read_block-longer new rs bytes out nz e in
          rw (nz, read_into)
            (Returns-bind
              (grow-IsBuffer gives bytes new sane is (omega (arith, low, fits)) (room _ low))
              λ (q, m₁) is₁.
                rw (add_int_ok (length bytes) (length new) (omega (arith, low, fits)))
                  (elim (Bool-cases (length new == read_buffer_len)) [
                    | inl whole ↦ rw whole (
                        rw (sym (length-append bytes new)) (
                          read_into-Matches gives rs (bytes ++ new) out sane fits room is₁
                            (sym (read_more new bytes rs nz whole) ∙ e)))
                    | inr part ↦ rw part (
                        subst
                          (λ o.
                            Returns (Matches m₀ o)
                              (ok (pos (length new), q, length bytes + length new, m₁)))
                          (ok_injective (sym (read_last new bytes rs nz part) ∙ e))
                          (returns (refl, sym (length-append bytes new), is₁)))
                  ]))
    ]

-- A request takes the buffer and is destroyed, where the platform's `delete` frees what malloc gave: the
-- storage is as it was before.
pub delete_data-set_data :
    {m₀ m : Memory ℕ} {p : Ptr} {bytes : List ℕ} (delete : Delete) (n : ℕ)
    → ((q : Ptr) (k : Memory ℕ) → delete q k ≡ free q k)
    → IsBuffer m₀ m p bytes
    → Returns
        (λ m'. (q : Ptr) → m'.block q ≡ m₀.block q)
        (set_data delete p n new_data_request m >>= λ (r, m₁). delete_data delete r m₁)
unfolding set_data delete_data free
delete_data-set_data {m} delete n frees no_buffer =
    rw (frees null m) (rw (frees null m) (returns (λ q. refl)))
delete_data-set_data {m₀} {m} {p} delete n frees (buffer h gone same sane) = rw (frees null m) (
    rw (frees p m) (
      rw (ne→==_false p null h.ne_null, h.stored)
        (returns (λ q. elim (Bool-cases (p == q)) [
          | inl e ↦ rw e (sym gone ∙ ap m₀.block (equal p q e))
          | inr e ↦ rw e (same q (differ p q e))
        ]))))

-- The read loop with its buffer in storage, where the bytes are no more than the greatest `int`, and
-- malloc and realloc have a block for as many bytes: whatever the calls of read return, as long as
-- they let the loop end, the size never overflows, the loop never writes outside the buffer or through
-- freed storage or NULL, ends with the same count as the loop on lists, and its buffer holds just the
-- bytes of that loop, in a block of its own, the rest of the storage being as before.
pub read_into-read_loop :
    {m₀ : Memory ℕ} (gives : ℕ → Bool) (rs : List ReadResult) (count : ℤ) (bytes : List ℕ)
    → IsMemory m₀
    → length bytes ≤ int_max
    → ((n : ℕ) → n ≤ length bytes → gives n ≡ true)
    → read_loop rs [] ≡ ok (count, bytes)
    → Returns
        (λ (count', p, n, m). (count' ≡ count) × (n ≡ length bytes) × IsBuffer m₀ m p bytes)
        (read_into gives rs null 0 m₀)
read_into-read_loop gives rs count bytes sane fits room e =
    read_into-Matches gives rs [] (count, bytes) sane fits room no_buffer e
