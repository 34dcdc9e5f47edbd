-- ===== src/Registry/Tests.antt =====
-- Two modules, registered in order.
use usbtrace.Common.{◌≡◌, refl, [], none, some, codes, text_eq}
use usbtrace.Registry.{Module, register_module, find_module}

abbrev urb : Module
urb = record { name = codes "urb"; summary = none }

abbrev hub : Module
hub = record { name = codes "hub"; summary = none }

second_found : find_module (register_module (register_module [] urb) hub) (codes "hub") ≡ some hub
unfolding find_module register_module text_eq
second_found = refl
