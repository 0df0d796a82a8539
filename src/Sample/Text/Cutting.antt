-- ===== src/Sample/Text/Cutting.antt =====
-- Cutting the data of a request, and the length of what is printed.
use magicserver.Prelude.{
  ℕ, ◌+◌, ◌/◌, ◌%◌, ◌≤◌, ◌≡◌, refl, true, false, List, [], ◌∷◌, ◌++◌, arith, length, length-append,
  ◌==◌, ok, fault, out_of_bounds,
}
use magicserver.Sample.Text.{is_control, cut, c_string, print_byte, print_address}

-- No byte of the text ends it.
abbrev pub AllPlain : List ℕ → Type 0
AllPlain [] = Unit {0}
AllPlain (b ∷ rest) = (is_control b ≡ false) × AllPlain rest

plain-ne_zero : (b : ℕ) → is_control b ≡ false → (b == 0) ≡ false
unfolding is_control
plain-ne_zero b h = ground arith

-- What the data of a request mean to the handler: the text before the first byte that is a control
-- character or not ASCII.
pub c_string-cut :
    (text : List ℕ) (b : ℕ) (rest : List ℕ)
    → AllPlain text
    → is_control b ≡ true
    → c_string (cut (text ++ b ∷ rest)) ≡ ok text
unfolding cut c_string
c_string-cut [] b rest plain control = rw control
c_string-cut (x ∷ text) b rest (p, plain) control =
    rw (p, c_string) (rw (plain-ne_zero x p, c_string-cut text b rest plain control))

-- Data without such a byte are no C string.
pub c_string_unterminated :
    (text : List ℕ) → AllPlain text → c_string (cut text) ≡ fault out_of_bounds
unfolding cut c_string
c_string_unterminated [] plain = refl
c_string_unterminated (x ∷ text) (p, plain) =
    rw (p, c_string) (rw (plain-ne_zero x p, c_string_unterminated text plain))

length-print_byte : (n : ℕ) → (1 ≤ length (print_byte n)) × (length (print_byte n) ≤ 3)
unfolding print_byte
length-print_byte n = ground arith

-- The text of an address has 7 to 15 bytes, whatever the address; sprintf into the 22 bytes of ipaddr,
-- which checks no length, therefore has room for it and its NUL.
pub print_address_bounds :
    (address : ℕ)
    → (7 ≤ length (print_address address))
      × (length (print_address address) ≤ 15)
      × (length (print_address address) + 1 ≤ 22)
unfolding print_address
print_address_bounds address =
    let a = length-print_byte (address % 256) in
    let b = length-print_byte (address / 256 % 256) in
    let c = length-print_byte (address / 65536 % 256) in
    let d = length-print_byte (address / 16777216 % 256) in
    let e = length-append (print_byte (address % 256)) (
      b'.' ∷ print_byte (address / 256 % 256)
      ++ (b'.' ∷ print_byte (address / 65536 % 256)
          ++ (b'.' ∷ print_byte (address / 16777216 % 256)))) in
    let f = length-append (print_byte (address / 256 % 256)) (
      b'.' ∷ print_byte (address / 65536 % 256)
      ++ (b'.' ∷ print_byte (address / 16777216 % 256))) in
    let g =
      length-append (print_byte (address / 65536 % 256))
        (b'.' ∷ print_byte (address / 16777216 % 256)) in
    omega (arith, e, f, g)
