-- ===== src/Sample/Text.antt =====
-- What examples/libmsrvsample/src/samplehandler.cc does with text: C strings in buffers of bytes, and
-- the formats that it prints. A `char` is signed, as on the platforms that the library is built for.
pub mod Cutting
use Prim.Native.Char.{code}
use Prim.Native.String.{String}
use magicserver.Prelude.{
  ℕ, zero, suc, ◌+◌, ◌-◌, ◌/◌, ◌%◌, Bool, true, false, ◌||◌, ◌&&◌, List, [], ◌∷◌, ◌++◌, take, ltb,
  leb, ◌==◌, if◌then◌else◌, Outcome, ok, fault, out_of_bounds, ◌>>=◌,
}

-- The bytes of a text of ASCII characters.
abbrev pub bytes : String → List ℕ
bytes String.[] = []
bytes (String.◌∷◌ c s) = code c ∷ bytes s

-- data[i] < '\x20'
unfoldable pub is_control : ℕ → Bool
is_control b = ltb b 0x20 || leb 0x80 b

-- The loop of processData that cuts the data at the first such byte.
pub cut : List ℕ → List ℕ
cut [] = []
cut (b ∷ rest) = if is_control b then 0 ∷ rest else b ∷ cut rest

-- The C string at the start of a buffer. Without a NUL in it, whoever reads the string reads on
-- beyond the buffer.
pub c_string : List ℕ → Outcome (List ℕ)
c_string [] = fault out_of_bounds
c_string (b ∷ rest) = elim (b == 0) [
  | true ↦ ok []
  | false ↦ do text ← c_string rest; ok (b ∷ text)
]

-- !strcmp (a, b)
unfoldable pub same_text : List ℕ → List ℕ → Bool
same_text [] [] = true
same_text (a ∷ as') (b ∷ bs) = (a == b) && same_text as' bs
same_text a b = false

-- snprintf into a buffer of `size` bytes, the last of which is the NUL.
abbrev pub snprintf : ℕ → List ℕ → List ℕ
snprintf size text = take (size - 1) text

-- "%d" of a number below 1000
pub print_byte : ℕ → List ℕ
print_byte n =
    if ltb n 10
    then (b'0' + n) ∷ []
    else if ltb n 100
    then (b'0' + n / 10) ∷ (b'0' + n % 10) ∷ []
    else (b'0' + n / 100) ∷ (b'0' + n / 10 % 10) ∷ (b'0' + n % 10) ∷ []

-- The address as text; (address >> k) & 0xff is written as a quotient and a rest.
pub print_address : ℕ → List ℕ
print_address address =
    print_byte (address % 256)
    ++ (b'.' ∷ print_byte (address / 256 % 256)
        ++ (b'.' ∷ print_byte (address / 65536 % 256)
            ++ (b'.' ∷ print_byte (address / 16777216 % 256))))

-- MSG is char msg[1024].
abbrev pub message_size : ℕ
message_size = 1024

abbrev pub quote : ℕ
quote = 39

abbrev pub newline : ℕ
newline = 10

-- "001 Hello, there, \"%s\" (%s)!\n"
pub welcome : List ℕ → ℕ → List ℕ
unfolding print_address
welcome name address = snprintf message_size (
    bytes "001 Hello, there, "
    ++ (34 ∷ name ++ (34 ∷ bytes " (" ++ (print_address address ++ (bytes ")!" ++ newline ∷ [])))))

-- "004 Well well well, '%s' to you too!\n"
pub answer : List ℕ → List ℕ
answer data_text = snprintf message_size (
    bytes "004 Well well well, "
    ++ (quote ∷ data_text ++ (quote ∷ bytes " to you too!" ++ newline ∷ [])))

-- "005 Someone else said: '%s'.\n"
pub relayed : List ℕ → List ℕ
relayed data_text =
    snprintf message_size (
      bytes "005 Someone else said: " ++ (quote ∷ data_text ++ (quote ∷ bytes "." ++ newline ∷ [])))

-- The messages without a format.
abbrev pub welcome_stranger : List ℕ
welcome_stranger = bytes "001 Hello, there!" ++ newline ∷ []

abbrev pub bye : List ℕ
bye = bytes "002 Bye, there!" ++ newline ∷ []

abbrev pub shutting_down : List ℕ
shutting_down = bytes "003 Server shutting down immediately! (bye bye)" ++ newline ∷ []
