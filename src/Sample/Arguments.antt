-- ===== src/Sample/Arguments.antt =====
-- examples/libmsrvsample/src/samplemain.cc and examples/libmsrvsample/include/msrvsamplemain.h: the
-- command line of the sample server, and its main program. atoi and serverMain are arguments: the
-- first is the C library's, the second is what a program that links with the library defines.
pub mod Settings
use Prim.Native.String.{String}
use text.Mathlib.Text.{◌==◌ as str_eq}
use magicserver.Prelude.{
  ℕ, Bool, true, false, Option, none, some, List, [], ◌∷◌, ℤ, pos, ◌==ℤ◌, ◌&&◌, if◌then◌else◌,
}

-- struct TestArgs
pub record TestArgs : Type 0 where
  pub daemonize : Bool
  pub logfile : Option String
  pub portno : ℤ
  pub udp : Bool

-- TestArgs::TestArgs
abbrev pub new_test_args : TestArgs
new_test_args = record { daemonize = false; logfile = none; portno = pos 1234; udp = false }

-- What parse_cmd returns, the argument that it complains of, and the settings that it leaves.
pub record Parsed : Type 0 where
  pub result : ℤ
  pub complaint : Option String
  pub settings : TestArgs

-- The options with a value are only tested for where another argument follows.
pub data Choice : Type 0 where
  chose_daemonize chose_udp chose_logfile chose_portno chose_invalid : Choice

-- The conditions of the loop, in their order; `more` says that arg < argc-1.
pub choose : String → Bool → Choice
choose arg more =
    if str_eq arg "-d"
    then chose_daemonize
    else if str_eq arg "-udp"
    then chose_udp
    else if str_eq arg "-l" && more
    then chose_logfile
    else if str_eq arg "-p" && more
    then chose_portno
    else chose_invalid

-- int parse_cmd (int argc, char* argv[], TestArgs& args), from the argument that `arg` is at.
pub parse_cmd : (String → ℤ) → List String → TestArgs → Parsed
parse_cmd atoi [] args = record { result = pos 0; complaint = none; settings = args }
parse_cmd atoi (arg ∷ []) args = elim (choose arg false) [
  | chose_daemonize ↦ parse_cmd atoi [] (record args { daemonize = true })
  | chose_udp ↦ parse_cmd atoi [] (record args { udp = true })
  | chose_logfile ↦ record { result = pos 1; complaint = some arg; settings = args }
  | chose_portno ↦ record { result = pos 1; complaint = some arg; settings = args }
  | chose_invalid ↦ record { result = pos 1; complaint = some arg; settings = args }
]
parse_cmd atoi (arg ∷ value ∷ rest) args = elim (choose arg true) [
  | chose_daemonize ↦ parse_cmd atoi (value ∷ rest) (record args { daemonize = true })
  | chose_udp ↦ parse_cmd atoi (value ∷ rest) (record args { udp = true })
  | chose_logfile ↦ parse_cmd atoi rest (record args { logfile = some value })
  | chose_portno ↦ parse_cmd atoi rest (record args { portno = atoi value })
  | chose_invalid ↦ record { result = pos 1; complaint = some arg; settings = args }
]

-- What serverMain does: it returns a value, or an std::runtime_error leaves it.
pub data Exit : Type 0 where
  returned : ℤ → Exit
  runtime_error : Exit

-- int main (int argc, char* argv[]), for the arguments behind the program's name.
pub main : (String → ℤ) → (TestArgs → Exit) → List String → ℤ
unfolding parse_cmd
main atoi server_main argv =
    let parsed = parse_cmd atoi argv new_test_args in
    if parsed.result ==ℤ pos 0 then run (server_main parsed.settings) else parsed.result
  where
    run : Exit → ℤ
    run (returned exit_value) = exit_value
    run runtime_error = pos 0
