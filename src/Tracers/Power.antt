-- ===== src/Tracers/Power.antt =====
-- src/modules/power/power.bpf.c: runtime and port power management.
use usbtrace.Common.{ℕ, Option, none, some, if◌then◌else◌, ◌==◌}
use usbtrace.Common.Word.{u8, u16, u32}
use usbtrace.Records.{PowerRec, evt_power, size_of_power_rec}
use usbtrace.Bpf.{KernelDev, Task, dev_match}
use usbtrace.Tracers.{DevConfig, KernelMemory, read_devpath}

-- `enum power_action`.
pub data PowerAction : Type 0 where
  autosuspend autoresume port_suspend port_resume : PowerAction

abbrev pub power_code : PowerAction → ℕ
power_code autosuspend = 0
power_code autoresume = 1
power_code port_suspend = 2
power_code port_resume = 3

-- The record that `emit` fills.
unfoldable pub power_record : KernelDev → ℕ × ℕ → ℕ → Task → ℕ → PowerRec
power_record dev (vid, pid) action task now = record {
  hdr = record { kind = evt_power; size = size_of_power_rec; ts_ns = now };
  tgid = u32 task.tgid;
  vid = vid;
  product = pid;
  busnum = u16 dev.busnum;
  devnum = u16 dev.devnum;
  action = action;
  speed = u8 dev.speed;
  portnum = u8 dev.portnum;
  devpath = read_devpath dev;
  comm = task.comm;
}

-- `emit`, and with its action `on_autosuspend`, `on_autoresume`, `on_port_suspend` and
-- `on_port_resume`.
unfoldable pub emit_power : DevConfig → KernelMemory → Task → ℕ → ℕ → PowerAction → Option PowerRec
emit_power cfg k task now udev action =
    if udev == 0 then none else elim (dev_match (k.dev udev) cfg.filter_vid cfg.filter_pid) [
      | none ↦ none
      | some ids ↦ some (power_record (k.dev udev) ids (power_code action) task now)
    ]
