-- ===== src/Listener/Listen/Watching.antt =====
-- The set of descriptors that listen builds for select.
use magicserver.Prelude.{
  ℕ, zero, suc, ◌<◌, ◌≡◌, sym, ap, subst, ◌∙◌, true, false, List, [], ◌∷◌, ◌++◌, append_assoc,
  append-nil, map, arith, ℤ, pos, ltb_ℤ, lt→ltb, le→ltb_false, length, length-append, if◌then◌else◌,
  ok, fault, out_of_bounds, ◌>>=◌, Returns, returns, Returns-mono,
}
use magicserver.Memory.{Memory}
use magicserver.Container.Array.{Array}
use magicserver.Container.Array.Contents.{IsArray}
use magicserver.Container.Array.Iteration.{at_index_lem}
use magicserver.Listener.{Descriptor, Listener, rounds}
use magicserver.Listener.Removal.{Watches, enough, length-ltb}
use magicserver.Listener.Listen.{beyond_set, fd_set, watch_loop}

-- All numbers may be put into a set.
abbrev pub InSet : List Descriptor → Type 0
InSet [] = Unit {0}
InSet (d ∷ ds) = (beyond_set d.fd ≡ false) × InSet ds

-- No descriptor's number is above `maxfd`.
abbrev pub Above : ℤ → List Descriptor → Type 0
Above maxfd [] = Unit {0}
Above maxfd (d ∷ ds) = (ltb_ℤ maxfd d.fd ≡ false) × Above maxfd ds

abbrev pub numbers : List Descriptor → List ℤ
numbers ds = map (λ (d : Descriptor). d.fd) ds

-- One round of the loop.
watch_step :
    {m : Memory Descriptor} {a : Array} (f : ℕ) (done : List Descriptor) (x : Descriptor)
    (rest : List Descriptor) (maxfd : ℤ) (fds : List ℤ)
    → IsArray m a (done ++ x ∷ rest)
    → watch_loop (suc f) (length done) maxfd fds a m ≡ (
        fd_set x.fd fds >>= λ fds'.
        watch_loop f (length (done ++ x ∷ [])) (if ltb_ℤ maxfd x.fd then x.fd else maxfd) fds' a m)
unfolding watch_loop
watch_step {m} {a} f done x rest maxfd fds is =
    let e = length-ltb (length done) is in
    let d =
      lt→ltb (length done) (length (done ++ x ∷ rest))
        (omega (arith, length-append done (x ∷ rest))) in
    rw (e, watch_loop)
      (rw (d, at_index_lem done x rest is)
        (ap
          (λ i. fd_set x.fd fds >>= λ fds'.
            watch_loop f i (if ltb_ℤ maxfd x.fd then x.fd else maxfd) fds' a m)
          {x = suc (length done)} (omega (arith, length-append done (x ∷ [])))))

watch_end :
    {m : Memory Descriptor} {a : Array} (f : ℕ) (done : List Descriptor) (maxfd : ℤ) (fds : List ℤ)
    → IsArray m a (done ++ [])
    → watch_loop (suc f) (length done) maxfd fds a m ≡ ok (maxfd, fds)
unfolding watch_loop
watch_end f done maxfd fds is =
    let e = length-ltb (length done) is in
    let d =
      le→ltb_false (length done) (length (done ++ [])) (omega (arith, length-append done [])) in
    rw (e, watch_loop) (rw d)

ltb_ℤ_irrefl : (n : ℤ) → ltb_ℤ n n ≡ false
unfolding ltb_ℤ
ltb_ℤ_irrefl n = ground arith

-- The higher of two numbers is below neither.
higher :
    (a b c : ℤ)
    → ltb_ℤ c (if ltb_ℤ a b then b else a) ≡ false
    → (ltb_ℤ c a ≡ false) × (ltb_ℤ c b ≡ false)
unfolding ltb_ℤ
higher a b c h = ground arith

watch_loop-Above :
    {m : Memory Descriptor} {a : Array} (f : ℕ) (done rest : List Descriptor) (maxfd : ℤ)
    (fds : List ℤ)
    → IsArray m a (done ++ rest)
    → InSet rest
    → length rest < f
    → Returns
        (λ (maxfd', fds').
          (fds' ≡ fds ++ numbers rest) × (ltb_ℤ maxfd' maxfd ≡ false) × Above maxfd' rest)
        (watch_loop f (length done) maxfd fds a m)
unfolding fd_set
watch_loop-Above zero done rest maxfd fds is inside h = absurd (omega arith)
watch_loop-Above (suc f) done [] maxfd fds is inside h =
    rw (watch_end f done maxfd fds is) (returns (sym (append-nil fds), ltb_ℤ_irrefl maxfd, tt))
watch_loop-Above {m} {a} (suc f) done (x ∷ rest) maxfd fds is (low, inside) h =
    rw (watch_step f done x rest maxfd fds is, low)
      (Returns-mono
        (watch_loop-Above f (done ++ x ∷ []) rest (if ltb_ℤ maxfd x.fd then x.fd else maxfd)
          (fds ++ x.fd ∷ []) (subst (IsArray m a) (sym (append_assoc done (x ∷ []) rest)) is) inside
          (omega arith))
        λ (maxfd', fds') (e, over, above). (
          e ∙ append_assoc fds (x.fd ∷ []) (numbers rest),
          (higher maxfd x.fd maxfd' over).0,
          ((higher maxfd x.fd maxfd' over).1, above),
        ))

-- For descriptors that may be put into a set, the loop before select puts every one into it, in their
-- order, and finds a number that is not negative and that no descriptor is above.
pub watch_loop_bounds :
    {l : Listener} {ds : List Descriptor}
    → Watches l ds
    → InSet ds
    → Returns
        (λ (maxfd, fds). (fds ≡ numbers ds) × (ltb_ℤ maxfd (pos 0) ≡ false) × Above maxfd ds)
        (watch_loop (rounds l.descriptors) 0 (pos 0) [] l.descriptors l.storage)
watch_loop_bounds {l} {ds} w inside =
    watch_loop-Above (rounds l.descriptors) [] ds (pos 0) [] w.held inside (omega (arith, enough w))

watch_loop-beyond :
    {m : Memory Descriptor} {a : Array} (f : ℕ) (done pre : List Descriptor) (d : Descriptor)
    (post : List Descriptor) (maxfd : ℤ) (fds : List ℤ)
    → IsArray m a (done ++ (pre ++ d ∷ post))
    → InSet pre
    → beyond_set d.fd ≡ true
    → length pre < f
    → watch_loop f (length done) maxfd fds a m ≡ fault out_of_bounds
unfolding fd_set
watch_loop-beyond zero done pre d post maxfd fds is inside out h = absurd (omega arith)
watch_loop-beyond (suc f) done [] d post maxfd fds is inside out h =
    rw (watch_step f done d post maxfd fds is, out)
watch_loop-beyond {m} {a} (suc f) done (x ∷ pre) d post maxfd fds is (low, inside) out h =
    rw (watch_step f done x (pre ++ d ∷ post) maxfd fds is, low)
      (watch_loop-beyond f (done ++ x ∷ []) pre d post (if ltb_ℤ maxfd x.fd then x.fd else maxfd)
        (fds ++ x.fd ∷ [])
        (subst (IsArray m a) (sym (append_assoc done (x ∷ []) (pre ++ d ∷ post))) is) inside out
        (omega arith))

-- listen does not compare a descriptor with FD_SETSIZE. With a descriptor whose number is negative or
-- not below it, the first such one behind others that may be put into a set, the loop before select
-- writes beyond the set.
pub watch_loop_overflow :
    {l : Listener} (pre : List Descriptor) (d : Descriptor) (post : List Descriptor)
    → Watches l (pre ++ d ∷ post)
    → InSet pre
    → beyond_set d.fd ≡ true
    → watch_loop (rounds l.descriptors) 0 (pos 0) [] l.descriptors l.storage ≡ fault out_of_bounds
watch_loop_overflow {l} pre d post w inside out =
    watch_loop-beyond (rounds l.descriptors) [] pre d post (pos 0) [] w.held inside out
      (omega (arith, enough w, length-append pre (d ∷ post)))
