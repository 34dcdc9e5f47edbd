-- ===== src/Tracers/Enum.antt =====
-- src/modules/enum/enum.bpf.c: device states and the milestones of an enumeration.
pub mod Milestones
use usbtrace.Common.{ℕ, Option, none, some, if◌then◌else◌, ◌==◌}
use usbtrace.Common.Int.{ℤ, pos}
use usbtrace.Common.Word.{u8, u16, u32}
use usbtrace.Records.{EnumEvent, evt_enum, size_of_enum_event}
use usbtrace.Bpf.{KernelDev, Task, dev_match, KeyMap}
use usbtrace.Tracers.{DevConfig, KernelMemory, read_devpath, kret_int, kret_ptr_or_int}
use usbtrace.Tracers.Pending.{stash, unstash}

-- The steps of `enum enum_step` that have a return probe.
pub data EnumStep : Type 0 where
  get_desc set_addr set_config : EnumStep

abbrev pub step_state : ℕ
step_state = 0

abbrev pub step_code : EnumStep → ℕ
step_code get_desc = 1
step_code set_addr = 2
step_code set_config = 3

-- The record that `emit_enum` fills.
unfoldable pub enum_record : KernelDev → ℕ × ℕ → ℕ → ℕ → ℕ → ℤ → Task → ℕ → EnumEvent
enum_record dev (vid, pid) old_state new_state step status task now = record {
  hdr = record { kind = evt_enum; size = size_of_enum_event; ts_ns = now };
  tgid = u32 task.tgid;
  vid = vid;
  product = pid;
  busnum = u16 dev.busnum;
  devnum = u16 dev.devnum;
  old_state = old_state;
  new_state = new_state;
  speed = u8 dev.speed;
  portnum = u8 dev.portnum;
  devpath = read_devpath dev;
  comm = task.comm;
  status = status;
  step = step;
}

-- `emit_enum`.
unfoldable pub emit_enum :
    DevConfig → KernelMemory → Task → ℕ → ℕ → ℕ → ℕ → ℕ → ℤ → Option EnumEvent
emit_enum cfg k task now udev old_state new_state step status =
    if udev == 0 then none else elim (dev_match (k.dev udev) cfg.filter_vid cfg.filter_pid) [
      | none ↦ none
      | some ids ↦ some (enum_record (k.dev udev) ids old_state new_state step status task now)
    ]

-- `on_set_state`.
unfoldable pub on_set_state : DevConfig → KernelMemory → Task → ℕ → ℕ → ℕ → Option EnumEvent
on_set_state cfg k task now udev new_state =
    if udev == 0
    then none
    else emit_enum cfg k task now udev (u8 (k.dev udev).state) (u8 new_state) step_state (pos 0)

-- `ret` of `pop_emit`.
unfoldable pub step_status : EnumStep → ℕ → ℤ
step_status get_desc rc = kret_ptr_or_int rc
step_status set_addr rc = kret_int rc
step_status set_config rc = kret_int rc

-- What `pop_emit` does with the device that it found.
unfoldable pub emit_step :
    DevConfig → KernelMemory → Task → ℕ → EnumStep → ℕ → Option ℕ → Option EnumEvent
emit_step cfg k task now step rc none = none
emit_step cfg k task now step rc (some udev) =
    if udev == 0
    then none
    else (let state = u8 (k.dev udev).state in
        emit_enum cfg k task now udev state state (step_code step) (step_status step rc))

module _ (K : KeyMap ℕ) where
  open K use {Map, empty, lookup}

  -- `pop_emit`: the map, and the record that goes on the buffer.
  unfoldable pub pop_emit :
      DevConfig → KernelMemory → Task → ℕ → EnumStep → ℕ → Map → Map × Option EnumEvent
  pop_emit cfg k task now step rc m =
      (unstash K m task.pid_tgid, emit_step cfg k task now step rc (lookup m task.pid_tgid))

  -- `desc_pending`, `addr_pending` and `config_pending`.
  pub record EnumMaps : Type 0 where
    pub desc : Map
    pub addr : Map
    pub config : Map

  unfoldable pub no_devices : EnumMaps
  no_devices = record { desc = empty; addr = empty; config = empty }

  abbrev pub map_of : EnumStep → EnumMaps → Map
  map_of get_desc s = s.desc
  map_of set_addr s = s.addr
  map_of set_config s = s.config

  abbrev pub set_map : EnumStep → EnumMaps → Map → EnumMaps
  set_map get_desc s m = record s { desc = m }
  set_map set_addr s m = record s { addr = m }
  set_map set_config s m = record s { config = m }

  -- `on_get_desc`, `on_set_addr` and `on_set_config`.
  unfoldable pub on_step : EnumStep → Task → ℕ → EnumMaps → EnumMaps
  on_step step task udev s = set_map step s (stash K (map_of step s) task.pid_tgid udev)

  -- `on_get_desc_exit`, `on_set_addr_exit` and `on_set_config_exit`.
  unfoldable pub on_step_exit :
      DevConfig → KernelMemory → Task → ℕ → EnumStep → ℕ → EnumMaps → EnumMaps × Option EnumEvent
  on_step_exit cfg k task now step rc s =
      let (m, e) = pop_emit cfg k task now step rc (map_of step s) in (set_map step s m, e)
