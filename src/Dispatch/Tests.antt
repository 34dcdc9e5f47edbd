-- ===== src/Dispatch/Tests.antt =====
-- A program with two modules, one of which rejects its arguments.
use usbtrace.Common.{
  ◌≡◌, ◌⊎◌, refl, true, false, List, [], ◌∷◌, ◌++◌, map, ℕ, none, some, codes, text_eq,
  if◌then◌else◌,
}
use usbtrace.Common.Int.{ℤ, pos, negsuc}
use usbtrace.Registry.{Module, find_module}
use usbtrace.Dispatch.{
  help, option_kind, ModuleOps, Globals, command, main, parse_result, run_found, is_option,
  module_usage,
}
use usbtrace.Dispatch.Commands.{v, json, flag_text, main-flags, command-decides, module_run}

abbrev urb : Module
urb = record { name = codes "urb"; summary = none }

abbrev hid : Module
hid = record { name = codes "hid"; summary = none }

abbrev rejects_options : Module → List (List ℕ) → ℤ
rejects_options m (name ∷ []) = pos 0
rejects_options m argv = negsuc 0

abbrev ops : ModuleOps
ops = record {
  parse_args = λ m. if text_eq m.name (codes "urb") then none else some (rejects_options m);
  has_usage = λ m. true;
  run = λ m argv. pos 3;
}

abbrev quiet : Globals
quiet = record { verbose = false; json = false }

help_after_option :
    (main (urb ∷ hid ∷ []) ops quiet (codes "-v" ∷ codes "help" ∷ codes "hid" ∷ [])).1
    ≡ record { code = pos 0; effects = module_usage hid ∷ [] }
unfolding main command help option_kind is_option text_eq find_module
help_after_option = refl

not_dash : is_option (codes "urb") ≡ false
unfolding is_option
not_dash = refl

main-flags_example :
    main
      (urb ∷ hid ∷ [])
      ops
      quiet
      (map flag_text (json ∷ v ∷ []) ++ (codes "urb" ∷ codes "-c" ∷ []))
    ≡ (
      record { verbose = true; json = true },
      command (urb ∷ hid ∷ []) ops (codes "urb") (codes "-c" ∷ []),
    )
main-flags_example =
    main-flags (urb ∷ hid ∷ []) ops quiet (json ∷ v ∷ []) (codes "urb") (codes "-c" ∷ []) not_dash

command-decides_example :
    ((m : Module) × ((find_module (urb ∷ hid ∷ []) (codes "hid") ≡ some m)
        × (((parse_result (urb ∷ hid ∷ []) ops m (codes "hid" ∷ []) ≡ none)
              ⊎ (parse_result (urb ∷ hid ∷ []) ops m (codes "hid" ∷ []) ≡ some (pos 0)))
            × (command (urb ∷ hid ∷ []) ops (codes "hid") []
                ≡ run_found (urb ∷ hid ∷ []) ops m (codes "hid" ∷ [])))))
    ⊎ ((module_run (command (urb ∷ hid ∷ []) ops (codes "hid") []).effects ≡ none)
        × (((command (urb ∷ hid ∷ []) ops (codes "hid") []).code ≡ pos 0)
            ⊎ ((command (urb ∷ hid ∷ []) ops (codes "hid") []).code ≡ pos 2)))
command-decides_example = command-decides (urb ∷ hid ∷ []) ops (codes "hid") []
