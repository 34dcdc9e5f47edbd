-- ===== src/Tracers/Lifecycle.antt =====
-- src/modules/lifecycle/lifecycle.bpf.c: connects, disconnects and resets of devices.
pub mod Connect
use usbtrace.Common.{ℕ, ◌^◌, ◌||◌, Option, none, some, if◌then◌else◌, ◌==◌}
use usbtrace.Common.Int.{ℤ, pos, ltb_ℤ}
use usbtrace.Common.Word.{u8, u16, u32}
use usbtrace.Records.{LifecycleEvent, evt_lifecycle, size_of_lifecycle_event}
use usbtrace.Bpf.{KernelDev, Task, dev_match, KeyMap}
use usbtrace.Tracers.{DevConfig, KernelMemory, read_devpath, read_kptr, kret_int}
use usbtrace.Tracers.Pending.{stash, unstash}

-- `enum lifecycle_action`.
abbrev pub connect : ℕ
connect = 0

abbrev pub disconnect : ℕ
disconnect = 1

abbrev pub reset : ℕ
reset = 2

-- The record that `emit` fills.
unfoldable pub lifecycle_record : KernelDev → ℕ × ℕ → ℕ → ℕ → Task → ℕ → LifecycleEvent
lifecycle_record dev (vid, pid) action resume task now = record {
  hdr = record { kind = evt_lifecycle; size = size_of_lifecycle_event; ts_ns = now };
  tgid = u32 task.tgid;
  vid = vid;
  product = pid;
  busnum = u16 dev.busnum;
  devnum = u16 dev.devnum;
  action = action;
  speed = u8 dev.speed;
  portnum = u8 dev.portnum;
  reset_resume = if action == reset then u8 resume else 0;
  devpath = read_devpath dev;
  comm = task.comm;
}

-- `emit`.
unfoldable pub emit_lifecycle : DevConfig → KernelMemory → Task → ℕ → ℕ → ℕ → Option LifecycleEvent
emit_lifecycle cfg k task now udev action =
    if udev == 0 then none else elim (dev_match (k.dev udev) cfg.filter_vid cfg.filter_pid) [
      | none ↦ none
      | some ids ↦ some (lifecycle_record (k.dev udev) ids action (k.reset_resume udev) task now)
    ]

-- `on_disconnect`, with its pointer to a pointer.
unfoldable pub on_disconnect : DevConfig → KernelMemory → Task → ℕ → ℕ → Option LifecycleEvent
on_disconnect cfg k task now pdev =
    if pdev == 0 then none else emit_lifecycle cfg k task now (read_kptr k pdev) disconnect

-- `on_reset`.
unfoldable pub on_reset : DevConfig → KernelMemory → Task → ℕ → ℕ → Option LifecycleEvent
on_reset cfg k task now udev = emit_lifecycle cfg k task now udev reset

-- What `on_new_device_exit` does with the device that it found.
unfoldable pub emit_connect :
    DevConfig → KernelMemory → Task → ℕ → ℕ → Option ℕ → Option LifecycleEvent
emit_connect cfg k task now rc none = none
emit_connect cfg k task now rc (some udev) =
    if ltb_ℤ (kret_int rc) (pos 0) || udev == 0
    then none
    else emit_lifecycle cfg k task now udev connect

module _ (K : KeyMap ℕ) where
  open K use {Map, lookup}

  -- `on_new_device`.
  unfoldable pub on_new_device : Task → ℕ → Map → Map
  on_new_device task udev m = stash K m task.pid_tgid udev

  -- `on_new_device_exit`, with the return register.
  unfoldable pub on_new_device_exit :
      DevConfig → KernelMemory → Task → ℕ → ℕ → Map → Map × Option LifecycleEvent
  on_new_device_exit cfg k task now rc m =
      (unstash K m task.pid_tgid, emit_connect cfg k task now rc (lookup m task.pid_tgid))
