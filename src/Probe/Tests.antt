-- ===== src/Probe/Tests.antt =====
-- A kernel without ftrace tables, whose kallsyms lists one function.
use usbtrace.Common.{ℕ, ◌≡◌, refl, false, List, [], ◌∷◌, some, none, codes, text_eq}
use usbtrace.Probe.{Kernel, any_line, split_slash, autoload_filter}
use usbtrace.Probe.FailOpen.{autoload_filter_lem}

abbrev small_kernel : Kernel
small_kernel = record {
  kallsyms = some ((codes "ffffffff81000000" ∷ codes "T" ∷ codes "usb_submit_urb" ∷ []) ∷ []);
  filter_functions = none ∷ none ∷ [];
  events_dirs = false ∷ false ∷ [];
  event_exists = λ i s e. false;
  subsystems = λ i. none;
}

abbrev sections : List (List ℕ)
sections = codes "kprobe/hid_irq_in" ∷ codes "tp/usb/x" ∷ []

autoload_filter_lem_example :
    (autoload_filter small_kernel sections).1
    ≡ (false ∷ (autoload_filter small_kernel (codes "tp/usb/x" ∷ [])).1)
unfolding any_line split_slash text_eq
autoload_filter_lem_example =
    autoload_filter_lem small_kernel (codes "kprobe/hid_irq_in") (codes "kprobe") b'h'
      (codes "id_irq_in") (codes "tp/usb/x" ∷ []) refl refl
