-- ===== src/Tracers/Enum/Milestones.antt =====
-- A milestone's record names the device that its own thread entered the step with.
use usbtrace.Common.{
  ℕ, ◌≡◌, refl, ◌∙◌, ap, ap₂, Bool, true, false, List, [], ◌∷◌, Option, none, some, if◌then◌else◌,
}
use usbtrace.Records.{EnumEvent}
use usbtrace.Bpf.{Task, KeyMap, NeverFull}
use usbtrace.Tracers.{DevConfig, KernelMemory}
use usbtrace.Tracers.Pending.{
  Probe, entry, return, pending, map_after, stash, unstash, lookup-map_after,
}
use usbtrace.Tracers.Enum.{
  EnumStep, get_desc, set_addr, set_config, on_set_state, emit_step, EnumMaps, no_devices, map_of,
  set_map, on_step, on_step_exit, pop_emit,
}

-- A call of one of the programs.
pub data EnumCall : Type 0 where
  state : Task → ℕ → KernelMemory → ℕ → ℕ → EnumCall  -- usb_set_device_state(udev, state) at a time
  enter : EnumStep → Task → ℕ → EnumCall
  exit : EnumStep → Task → ℕ → KernelMemory → ℕ → EnumCall  -- with the return register

abbrev pub same_step : EnumStep → EnumStep → Bool
same_step get_desc get_desc = true
same_step set_addr set_addr = true
same_step set_config set_config = true
same_step a b = false

-- What the calls do to the map of one step, newest first.
abbrev pub probes_of : EnumStep → List EnumCall → List Probe
probes_of st [] = []
probes_of st (state t now k u n ∷ cs) = probes_of st cs
probes_of st (enter s t u ∷ cs) =
    let rest = probes_of st cs in if same_step s st then entry t.pid_tgid u ∷ rest else rest
probes_of st (exit s t now k rc ∷ cs) =
    let rest = probes_of st cs in if same_step s st then return t.pid_tgid ∷ rest else rest

abbrev pub report : Option EnumEvent → List EnumEvent → List EnumEvent
report none es = es
report (some e) es = e ∷ es

-- The records of the calls, newest first, told without any map: a milestone is about the pending
-- device of its thread and its step.
abbrev pub timeline : DevConfig → List EnumCall → List EnumEvent
timeline cfg [] = []
timeline cfg (state t now k u n ∷ cs) = report (on_set_state cfg k t now u n) (timeline cfg cs)
timeline cfg (enter s t u ∷ cs) = timeline cfg cs
timeline cfg (exit s t now k rc ∷ cs) =
    report (emit_step cfg k t now s rc (pending (probes_of s cs) t.pid_tgid)) (timeline cfg cs)

module _ (K : KeyMap ℕ) where
  open K use {Map, lookup}

  -- The maps and the buffer after the calls, newest first.
  unfoldable pub maps_after : DevConfig → List EnumCall → EnumMaps K
  maps_after cfg [] = no_devices K
  maps_after cfg (state t now k u n ∷ cs) = maps_after cfg cs
  maps_after cfg (enter s t u ∷ cs) = on_step K s t u (maps_after cfg cs)
  maps_after cfg (exit s t now k rc ∷ cs) = (on_step_exit K cfg k t now s rc (maps_after cfg cs)).0

  unfoldable pub emitted : DevConfig → List EnumCall → List EnumEvent
  emitted cfg [] = []
  emitted cfg (state t now k u n ∷ cs) = report (on_set_state cfg k t now u n) (emitted cfg cs)
  emitted cfg (enter s t u ∷ cs) = emitted cfg cs
  emitted cfg (exit s t now k rc ∷ cs) =
      report (on_step_exit K cfg k t now s rc (maps_after cfg cs)).1 (emitted cfg cs)

  set_step :
      (f : Map → Map) (s st : EnumStep) (ms : EnumMaps K) (m : Map)
      → map_of K st ms ≡ m
      → map_of K st (set_map K s ms (f (map_of K s ms))) ≡ (if same_step s st then f m else m)
  set_step f get_desc get_desc ms m h = ap f h
  set_step f get_desc set_addr ms m h = h
  set_step f get_desc set_config ms m h = h
  set_step f set_addr get_desc ms m h = h
  set_step f set_addr set_addr ms m h = ap f h
  set_step f set_addr set_config ms m h = h
  set_step f set_config get_desc ms m h = h
  set_step f set_config set_addr ms m h = h
  set_step f set_config set_config ms m h = ap f h

  map_after_if :
      (b : Bool) (ps qs : List Probe)
      → (if b then map_after K ps else map_after K qs) ≡ map_after K (if b then ps else qs)
  map_after_if true ps qs = refl
  map_after_if false ps qs = refl

  -- Each map holds what the probes of its own step left in it.
  map_of-maps_after :
      (cfg : DevConfig) (cs : List EnumCall) (st : EnumStep)
      → map_of K st (maps_after cfg cs) ≡ map_after K (probes_of st cs)
  unfolding maps_after map_after on_step on_step_exit pop_emit no_devices
  map_of-maps_after cfg [] get_desc = refl
  map_of-maps_after cfg [] set_addr = refl
  map_of-maps_after cfg [] set_config = refl
  map_of-maps_after cfg (state t now k u n ∷ cs) st = map_of-maps_after cfg cs st
  map_of-maps_after cfg (enter s t u ∷ cs) st =
      set_step (λ m. stash K m t.pid_tgid u) s st (maps_after cfg cs) _
        (map_of-maps_after cfg cs st)
      ∙ map_after_if (same_step s st) (entry t.pid_tgid u ∷ probes_of st cs) (probes_of st cs)
  map_of-maps_after cfg (exit s t now k rc ∷ cs) st =
      set_step (λ m. unstash K m t.pid_tgid) s st (maps_after cfg cs) _
        (map_of-maps_after cfg cs st)
      ∙ map_after_if (same_step s st) (return t.pid_tgid ∷ probes_of st cs) (probes_of st cs)

  -- With maps that are never full, the records of any interleaving of the programs, over any
  -- threads and contents of the kernel's memory, are those of the timeline: a state change is
  -- reported as it is, and a milestone, with its status, for the device that the last entry of the
  -- same thread in the same step had, if no return followed it, and for none otherwise.
  pub emitted-timeline :
      (cfg : DevConfig) (cs : List EnumCall) → NeverFull K → emitted cfg cs ≡ timeline cfg cs
  unfolding emitted on_step_exit pop_emit
  emitted-timeline cfg [] full = refl
  emitted-timeline cfg (state t now k u n ∷ cs) full =
      ap (report (on_set_state cfg k t now u n)) (emitted-timeline cfg cs full)
  emitted-timeline cfg (enter s t u ∷ cs) full = emitted-timeline cfg cs full
  emitted-timeline cfg (exit s t now k rc ∷ cs) full =
      ap₂ (λ o. report (emit_step cfg k t now s rc o))
        (ap (λ m. lookup m t.pid_tgid) (map_of-maps_after cfg cs s)
          ∙ lookup-map_after K (probes_of s cs) t.pid_tgid full)
        (emitted-timeline cfg cs full)
