-- ===== src/Sample/Arguments/Settings.antt =====
-- The command lines that parse_cmd takes, and those that it refuses.
use Prim.Native.String.{String}
use text.Mathlib.Text.{◌==◌ as str_eq}
use magicserver.Prelude.{
  ◌≡◌, refl, sym, ap, append-nil, ◌∙◌, true, false, none, some, List, [], ◌∷◌, ◌++◌, append_assoc,
  ℤ, pos, ◌==ℤ◌,
}
use magicserver.Sample.Arguments.{
  TestArgs, new_test_args, Parsed, choose, parse_cmd, Exit, runtime_error, main,
}

-- What a user can ask for.
pub data Setting : Type 0 where
  detach use_udp : Setting
  log_to listen_at : String → Setting

-- The arguments that ask for it.
abbrev pub words : Setting → List String
words detach = "-d" ∷ []
words use_udp = "-udp" ∷ []
words (log_to name) = "-l" ∷ name ∷ []
words (listen_at port) = "-p" ∷ port ∷ []

abbrev pub command_line : List Setting → List String
command_line [] = []
command_line (setting ∷ rest) = words setting ++ command_line rest

-- What the program is to do then: of two settings of one kind, the later one holds.
abbrev pub apply : (String → ℤ) → Setting → TestArgs → TestArgs
apply atoi detach args = record args { daemonize = true }
apply atoi use_udp args = record args { udp = true }
apply atoi (log_to name) args = record args { logfile = some name }
apply atoi (listen_at port) args = record args { portno = atoi port }

abbrev pub apply_all : (String → ℤ) → List Setting → TestArgs → TestArgs
apply_all atoi [] args = args
apply_all atoi (setting ∷ rest) args = apply_all atoi rest (apply atoi setting args)

parse_words :
    (atoi : String → ℤ) (setting : Setting) (rest : List String) (args : TestArgs)
    → parse_cmd atoi (words setting ++ rest) args ≡ parse_cmd atoi rest (apply atoi setting args)
unfolding parse_cmd choose
parse_words atoi detach [] args = refl
parse_words atoi detach (arg ∷ rest) args = refl
parse_words atoi use_udp [] args = refl
parse_words atoi use_udp (arg ∷ rest) args = refl
parse_words atoi (log_to name) rest args = refl
parse_words atoi (listen_at port) rest args = refl

parse_line :
    (atoi : String → ℤ) (settings : List Setting) (rest : List String) (args : TestArgs)
    → parse_cmd atoi (command_line settings ++ rest) args
      ≡ parse_cmd atoi rest (apply_all atoi settings args)
parse_line atoi [] rest args = refl
parse_line atoi (setting ∷ settings) rest args =
    rw (append_assoc (words setting) (command_line settings) rest) (
      parse_words atoi setting (command_line settings ++ rest) args
      ∙ parse_line atoi settings rest (apply atoi setting args))

-- The argument is no option, or it is one with a value and no argument follows.
abbrev pub IsInvalid : String → List String → Type 0
IsInvalid arg [] = (str_eq arg "-d" ≡ false) × (str_eq arg "-udp" ≡ false)
IsInvalid arg (value ∷ rest) =
    (str_eq arg "-d" ≡ false)
    × (str_eq arg "-udp" ≡ false)
    × (str_eq arg "-l" ≡ false)
    × (str_eq arg "-p" ≡ false)

-- Every command line is one of settings, or it has an invalid argument behind some settings.
data Sorted (argv : List String) : Type 0 where
  all_settings : (settings : List Setting) → argv ≡ command_line settings → Sorted argv
  invalid_at :
      (settings : List Setting) (arg : String) (rest : List String)
      → IsInvalid arg rest
      → argv ≡ command_line settings ++ arg ∷ rest
      → Sorted argv

-- What parse_cmd may leave for a command line.
pub data Reads (atoi : String → ℤ) (args : TestArgs) (argv : List String) (parsed : Parsed)
    : Type 0 where
  taken :
      (settings : List Setting)
      → argv ≡ command_line settings
      → parsed
        ≡ record { result = pos 0; complaint = none; settings = apply_all atoi settings args }
      → Reads atoi args argv parsed
  refused :
      (settings : List Setting) (arg : String) (rest : List String)
      → IsInvalid arg rest
      → argv ≡ command_line settings ++ arg ∷ rest
      → parsed
        ≡ record { result = pos 1; complaint = some arg; settings = apply_all atoi settings args }
      → Reads atoi args argv parsed

-- The arguments of a list of settings are read back as these settings, applied in their order.
pub parse_cmd-command_line :
    (atoi : String → ℤ) (settings : List Setting) (args : TestArgs)
    → parse_cmd atoi (command_line settings) args
      ≡ record { result = pos 0; complaint = none; settings = apply_all atoi settings args }
unfolding parse_cmd
parse_cmd-command_line atoi settings args =
    ap (λ v. parse_cmd atoi v args) (sym (append-nil (command_line settings)))
    ∙ parse_line atoi settings [] args

-- An exception that leaves serverMain, for a command line of settings: the program returns 0, as it
-- does after a run without an error.
pub main-command_line :
    (atoi : String → ℤ) (server_main : TestArgs → Exit) (settings : List Setting)
    → server_main (apply_all atoi settings new_test_args) ≡ runtime_error
    → main atoi server_main (command_line settings) ≡ pos 0
unfolding main ◌==ℤ◌
main-command_line atoi server_main settings thrown =
    rw (parse_cmd-command_line atoi settings new_test_args) (rw thrown)
