-- ===== src/Registry.antt =====
-- src/module.c: the list of modules, in the order of registration.
mod Tests
use usbtrace.Common.{ℕ, List, [], ◌∷◌, Option, none, some, if◌then◌else◌, text_eq, ◌≡◌, refl, arith}

-- `struct usbtrace_module`, without its functions. The list stands for the chain of `next`
-- pointers from `g_modules`.
pub record Module : Type 0 where
  pub name : List ℕ
  pub summary : Option (List ℕ)

-- `usbtrace_register_module`: the walk to the tail.
unfoldable pub register_module : List Module → Module → List Module
register_module [] mod' = mod' ∷ []
register_module (m ∷ ms) mod' = m ∷ register_module ms mod'

-- `usbtrace_find_module`: the first module of that name.
unfoldable pub find_module : List Module → List ℕ → Option Module
find_module [] name = none
find_module (m ∷ ms) name =
    let rest = find_module ms name in if text_eq m.name name then some m else rest

-- A registered module is found by its name unless an earlier one has that name, and every other
-- lookup is as before.
pub find_module-register_module :
    (ms : List Module) (m : Module) (name : List ℕ)
    → find_module (register_module ms m) name ≡ elim (find_module ms name) [
      | some old ↦ some old
      | none ↦ if text_eq m.name name then some m else none
    ]
unfolding find_module register_module
find_module-register_module [] m name = refl
find_module-register_module (x ∷ ms) m name = ground (arith, find_module-register_module ms m name)
