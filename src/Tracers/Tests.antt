-- ===== src/Tracers/Tests.antt =====
-- Two threads that enumerate two devices, on maps that are never full, and a hub with one device.
use usbtrace.Common.{
  ℕ, ◌+◌, ◌*◌, ◌<◌, ◌≡◌, refl, arith, false, List, [], ◌∷◌, none, some, if◌then◌else◌, ◌==◌,
}
use usbtrace.Common.Int.{pos, negsuc, ltb_ℤ}
use usbtrace.Records.{LifecycleEvent}
use usbtrace.Bpf.{KernelDev, Task, roomy_map, set_key_self, dev_match}
use usbtrace.Tracers.{DevConfig, KernelMemory, kret_int, kret_ptr_or_int, read_kptr, kptr_idx}
use usbtrace.Tracers.Pending.{Probe, entry, pending, map_after, stash, unstash}
use usbtrace.Tracers.Enum.{get_desc, set_addr, emit_enum, enum_record, emit_step, step_status}
use usbtrace.Tracers.Enum.Milestones.{
  EnumCall, state, enter, exit, emitted, timeline, emitted-timeline,
}
use usbtrace.Tracers.Lifecycle.{
  on_new_device_exit, lifecycle_record, emit_connect, emit_lifecycle, connect,
}
use usbtrace.Tracers.Lifecycle.Connect.{on_new_device_exit-connects}
use usbtrace.Tracers.Hub.{hub_child}
use usbtrace.Tracers.Hub.Ports.{hub_child-Bounded}

abbrev mouse : KernelDev
mouse = record {
  vid = 0x046d;
  product = 0xc077;
  busnum = 1;
  devnum = 9;
  state = 6;
  speed = 1;
  portnum = 3;
  devpath = [];
}

abbrev camera : KernelDev
camera = record mouse { vid = 0x0c45; product = 0x6366; devnum = 10; speed = 3; portnum = 1 }

abbrev memory : KernelMemory
memory = record {
  dev = λ a. if a == 0x1000 then mouse else camera;
  reset_resume = λ a. 0;
  hub = λ a. record { ports = 0x8000; hdev = 0x3000 };
  port = λ a. record { child = 0x2000; portnum = 1; over_current_count = 0 };
  pointer = λ a. if a == 0x8000 then 0x9000 else 0;
}

abbrev any : DevConfig
any = record { filter_vid = 0; filter_pid = 0 }

abbrev hub_thread : Task
hub_thread = record { pid_tgid = 0x500000005; tgid = 5; comm = [] }

abbrev other_thread : Task
other_thread = record { pid_tgid = 0x600000006; tgid = 6; comm = [] }

-- Newest first: each thread returns after the other has entered; the descriptor of one is read.
abbrev calls : List EnumCall
calls =
    exit get_desc other_thread 40 memory 18
    ∷ exit set_addr hub_thread 30 memory 0xffffffffffffff92
    ∷ enter get_desc other_thread 0x2000
    ∷ enter set_addr hub_thread 0x1000
    ∷ state hub_thread 10 memory 0x1000 6
    ∷ []

error_code : kret_int 0xffffffffffffff92 ≡ negsuc 109
unfolding kret_int
error_code = refl

error_pointer : kret_ptr_or_int 0xffffffffffffff92 ≡ negsuc 109
unfolding kret_ptr_or_int
error_pointer = refl

a_pointer : kret_ptr_or_int 0xffff888012345678 ≡ pos 0
unfolding kret_ptr_or_int
a_pointer = refl

second_milestone :
    timeline any (exit set_addr hub_thread 30 memory 0 ∷ enter set_addr hub_thread 0x1000 ∷ [])
    ≡ enum_record mouse (0x046d, 0xc077) 6 6 2 (pos 0) hub_thread 30 ∷ []
unfolding emit_step emit_enum step_status kret_int dev_match
second_milestone = refl

emitted-timeline_example : emitted roomy_map any calls ≡ timeline any calls
emitted-timeline_example = emitted-timeline roomy_map any calls set_key_self

abbrev probes : List Probe
probes = entry 0x600000006 0x2000 ∷ entry 0x500000005 0x1000 ∷ []

abbrev mouse_connect : LifecycleEvent
mouse_connect = lifecycle_record mouse (0x046d, 0xc077) connect 0 hub_thread 50

is_connect :
    (on_new_device_exit roomy_map any memory hub_thread 50 0 (map_after roomy_map probes)).1
    ≡ some mouse_connect
unfolding on_new_device_exit emit_connect emit_lifecycle map_after stash unstash kret_int dev_match
is_connect = refl

on_new_device_exit-connects_example :
    ((dev : ℕ) × ((pending probes hub_thread.pid_tgid ≡ some dev)
        × ((ltb_ℤ (kret_int 0) (pos 0) ≡ false)
            × (emit_lifecycle any memory hub_thread 50 dev connect ≡ some mouse_connect))))
    × (roomy_map.lookup
          (on_new_device_exit roomy_map any memory hub_thread 50 0 (map_after roomy_map probes)).0
          hub_thread.pid_tgid
        ≡ none)
on_new_device_exit-connects_example =
    on_new_device_exit-connects roomy_map any probes memory hub_thread 50 0 mouse_connect is_connect

camera_found : hub_child memory 0x7000 (pos 1) ≡ 0x2000
unfolding hub_child kptr_idx read_kptr
camera_found = refl

-- Memory that differs from `memory` beyond the hub's sixteen slots.
abbrev changed : ℕ → ℕ
changed a = if a == 0x8080 then 0xdead else memory.pointer a

same_slots : (i : ℕ) → i < 16 → changed (0x8000 + i * 8) ≡ memory.pointer (0x8000 + i * 8)
same_slots i h = ground arith

hub_child-Bounded_example :
    hub_child (record memory { pointer = changed }) 0x7000 (pos 17)
    ≡ hub_child memory 0x7000 (pos 17)
hub_child-Bounded_example = hub_child-Bounded memory changed 0x7000 (pos 17) same_slots
