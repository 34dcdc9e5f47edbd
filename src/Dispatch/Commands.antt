-- ===== src/Dispatch/Commands.antt =====
-- Which module is run, and with which options.
use usbtrace.Common.{
  ℕ, ◌≡◌, ◌⊎◌, inl, inr, refl, arith, Bool, true, false, List, [], ◌∷◌, ◌++◌, Option, none, some,
  ◌||◌, text_eq, codes, map, Option-cases, Bool-cases,
}
use usbtrace.Common.Int.{ℤ, pos}
use usbtrace.Registry.{Module, find_module}
use usbtrace.Dispatch.{
  run_found, ModuleOps, Globals, Effect, ran, Outcome, is_option, option_kind, not_option,
  verbose_option, json_option, help, parsed, parse_result, command, main,
}

-- The spellings of the two options that may come before a command.
pub data Flag : Type 0 where
  v verbose j json : Flag

abbrev pub flag_text : Flag → List ℕ
flag_text v = codes "-v"
flag_text verbose = codes "--verbose"
flag_text j = codes "-j"
flag_text json = codes "--json"

abbrev pub asks_verbose : List Flag → Bool
asks_verbose [] = false
asks_verbose (v ∷ fs) = true
asks_verbose (verbose ∷ fs) = true
asks_verbose (f ∷ fs) = asks_verbose fs

abbrev pub asks_json : List Flag → Bool
asks_json [] = false
asks_json (j ∷ fs) = true
asks_json (json ∷ fs) = true
asks_json (f ∷ fs) = asks_json fs

kind_v : option_kind (codes "-v") ≡ verbose_option
unfolding option_kind is_option text_eq
kind_v = refl

kind_verbose : option_kind (codes "--verbose") ≡ verbose_option
unfolding option_kind is_option text_eq
kind_verbose = refl

kind_j : option_kind (codes "-j") ≡ json_option
unfolding option_kind is_option text_eq
kind_j = refl

kind_json : option_kind (codes "--json") ≡ json_option
unfolding option_kind is_option text_eq
kind_json = refl

kind_plain : (a : List ℕ) → is_option a ≡ false → option_kind a ≡ not_option
unfolding option_kind
kind_plain a h = ground (arith, h)

or_true : (b : Bool) → b || true ≡ true
or_true b = ground arith

or_false : (b : Bool) → b || false ≡ b
or_false b = ground arith

-- The first module that is run.
abbrev pub module_run : List Effect → Option Module
module_run [] = none
module_run (ran m ∷ es) = some m
module_run (e ∷ es) = module_run es

module _ (modules : List Module) (ops : ModuleOps) where
  abbrev out : Bool → Bool → List ℕ → List (List ℕ) → Globals × Outcome
  out b c cmd args = (record { verbose = b; json = c }, command modules ops cmd args)

  -- Any sequence of these options, in any order and however often, sets the output's two switches
  -- exactly if it names them, and the command after them is carried out with all its arguments.
  pub main-flags :
      (g : Globals) (fs : List Flag) (cmd : List ℕ) (args : List (List ℕ))
      → is_option cmd ≡ false
      → main modules ops g (map flag_text fs ++ (cmd ∷ args)) ≡ (
        record { verbose = g.verbose || asks_verbose fs; json = g.json || asks_json fs },
        command modules ops cmd args,
      )
  unfolding main
  main-flags g [] cmd args h = rw (main, kind_plain cmd h, or_false g.verbose, or_false g.json) refl
  main-flags g (v ∷ fs) cmd args h =
      rw (main, kind_v, or_true g.verbose) (main-flags (record g { verbose = true }) fs cmd args h)
  main-flags g (verbose ∷ fs) cmd args h =
      rw (main, kind_verbose, or_true g.verbose)
        (main-flags (record g { verbose = true }) fs cmd args h)
  main-flags g (j ∷ fs) cmd args h =
      rw (main, kind_j, or_true g.json) (main-flags (record g { json = true }) fs cmd args h)
  main-flags g (json ∷ fs) cmd args h =
      rw (main, kind_json, or_true g.json) (main-flags (record g { json = true }) fs cmd args h)

  abbrev Declines : Outcome → Type 0
  Declines o = (module_run o.effects ≡ none) × ((o.code ≡ pos 0) ⊎ (o.code ≡ pos 2))

  abbrev Accepts : Option ℤ → Type 0
  Accepts r = (r ≡ none) ⊎ (r ≡ some (pos 0))

  parsed-decides :
      (m : Module) (argv : List (List ℕ)) (r : Option ℤ)
      → (Accepts r × (parsed modules ops m argv r ≡ run_found modules ops m argv))
        ⊎ Declines (parsed modules ops m argv r)
  unfolding parsed
  parsed-decides m argv none = ground arith
  parsed-decides m argv (some r) = ground arith

  help-Declines : (args : List (List ℕ)) → Declines (help modules ops args)
  unfolding help
  help-Declines [] = ground arith
  help-Declines (name ∷ args) = ground arith

  -- A command either runs a module, or runs none and exits with 0 or 2. It runs the first one
  -- registered under its name, on its own name and the arguments after it, with the exit code of the
  -- module's `run`, and only if the module's `parse_args` returned 0 or there is none.
  pub command-decides :
      (cmd : List ℕ) (args : List (List ℕ))
      → ((m : Module) × ((find_module modules cmd ≡ some m)
            × (Accepts (parse_result modules ops m (cmd ∷ args))
                × (command modules ops cmd args ≡ run_found modules ops m (cmd ∷ args)))))
        ⊎ Declines (command modules ops cmd args)
  unfolding command
  command-decides cmd args = elim (Bool-cases (text_eq cmd (codes "list"))) [
    | inl l ↦ inr (rw l (refl, inl refl))
    | inr l ↦ elim (Bool-cases (text_eq cmd (codes "help"))) [
      | inl h ↦ inr (rw (l, h) (help-Declines args))
      | inr h ↦ elim (Option-cases (find_module modules cmd)) [
        | inl e ↦ inr (rw (l, h, e) (refl, inr refl))
        | inr (m, e) ↦
            elim (parsed-decides m (cmd ∷ args) (parse_result modules ops m (cmd ∷ args))) [
              | inl (a, p) ↦ inl (m, (e, (a, rw (l, h, e) p)))
              | inr d ↦ inr (rw (l, h, e) d)
            ]
      ]
    ]
  ]
