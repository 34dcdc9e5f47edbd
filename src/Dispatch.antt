-- ===== src/Dispatch.antt =====
-- src/main.c: the global options, the commands, and the hand-over to a module.
mod Commands
mod Tests
use usbtrace.Common.{
  ℕ, Bool, true, false, List, [], ◌∷◌, ◌++◌, Option, none, some, if◌then◌else◌, ◌||◌, not, ◌==◌,
  text_eq, codes,
}
use usbtrace.Common.Int.{ℤ, pos, ltb_ℤ}
use usbtrace.Registry.{Module, find_module}

-- What `main` calls of a module: `parse_args`, if it has one, on the arguments from the module's
-- name on; whether it has a `usage`; and the exit code of `run` after these arguments.
pub record ModuleOps : Type 0 where
  pub parse_args : Module → Option (List (List ℕ) → ℤ)
  pub has_usage : Module → Bool
  pub run : Module → List (List ℕ) → ℤ

-- `usbtrace_verbose` and `usbtrace_json`.
pub record Globals : Type 0 where
  pub verbose : Bool
  pub json : Bool

-- What `main` prints, and the module it runs.
pub data Effect : Type 0 where
  usage print_modules print_version : Effect
  module_usage summary_line : Module → Effect
  unknown_option unknown_module : List ℕ → Effect
  ran : Module → Effect

-- The exit code and the effects, in order.
pub record Outcome : Type 0 where
  pub code : ℤ
  pub effects : List Effect

-- How the loop over the global options reads an argument.
pub data OptionKind : Type 0 where
  not_option verbose_option json_option version_option help_option other_option : OptionKind

-- `a[0] != '-'`.
unfoldable pub is_option : List ℕ → Bool
is_option [] = false
is_option (c ∷ cs) = c == b'-'

unfoldable pub option_kind : List ℕ → OptionKind
option_kind a =
    if not (is_option a)
    then not_option
    else if text_eq a (codes "-v") || text_eq a (codes "--verbose")
    then verbose_option
    else if text_eq a (codes "-j") || text_eq a (codes "--json")
    then json_option
    else if text_eq a (codes "-V") || text_eq a (codes "--version")
    then version_option
    else if text_eq a (codes "-h") || text_eq a (codes "--help")
    then help_option
    else other_option

abbrev exits : ℤ → List Effect → Outcome
exits code effects = record { code = code; effects = effects }

module _ (modules : List Module) (ops : ModuleOps) where
  -- The command `help`.
  unfoldable pub help : List (List ℕ) → Outcome
  help [] = exits (pos 0) (usage ∷ [])
  help (name ∷ args) = elim (find_module modules name) [
    | none ↦ exits (pos 2) (unknown_module name ∷ [])
    | some m ↦ exits (pos 0) ((if ops.has_usage m then module_usage m else summary_line m) ∷ [])
  ]

  -- `mod->run`.
  abbrev pub run_found : Module → List (List ℕ) → Outcome
  run_found m argv = exits (ops.run m argv) (ran m ∷ [])

  -- From `if (mod->parse_args)` on, with what `parse_args` returns.
  unfoldable pub parsed : Module → List (List ℕ) → Option ℤ → Outcome
  parsed m argv none = run_found m argv
  parsed m argv (some rc) =
      if ltb_ℤ (pos 0) rc
      then exits (pos 0) (if ops.has_usage m then module_usage m ∷ [] else [])
      else if ltb_ℤ rc (pos 0)
      then exits (pos 2) []
      else run_found m argv

  abbrev pub parse_result : Module → List (List ℕ) → Option ℤ
  parse_result m argv = elim (ops.parse_args m) [ none ↦ none | some f ↦ some (f argv) ]

  -- `main` from `cmd = argv[i]` on.
  unfoldable pub command : List ℕ → List (List ℕ) → Outcome
  command cmd args =
      if text_eq cmd (codes "list")
      then exits (pos 0) (print_modules ∷ [])
      else if text_eq cmd (codes "help")
      then help args
      else elim (find_module modules cmd) [
        | none ↦ exits (pos 2) (unknown_module cmd ∷ print_modules ∷ [])
        | some m ↦ parsed m (cmd ∷ args) (parse_result m (cmd ∷ args))
      ]

  -- `main`, on the arguments after the program's name.
  unfoldable pub main : Globals → List (List ℕ) → Globals × Outcome
  main g [] = (g, exits (pos 2) (usage ∷ []))
  main g (a ∷ args) = elim (option_kind a) [
    | not_option ↦ (g, command a args)
    | verbose_option ↦ main (record g { verbose = true }) args
    | json_option ↦ main (record g { json = true }) args
    | version_option ↦ (g, exits (pos 0) (print_version ∷ []))
    | help_option ↦ (g, exits (pos 0) (usage ∷ []))
    | other_option ↦ (g, exits (pos 2) (unknown_option a ∷ usage ∷ []))
  ]
