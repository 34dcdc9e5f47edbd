-- ===== src/Tracers/Hub.antt =====
-- src/modules/hub/hub.bpf.c: resets, power and over-current of hub ports.
pub mod Ports
use usbtrace.Common.{ℕ, ◌-◌, Bool, ◌||◌, not, Option, none, some, if◌then◌else◌, ◌==◌}
use usbtrace.Common.Int.{ℤ, pos, ltb_ℤ, pos_part}
use usbtrace.Common.Word.{u8, u16, u32, cast_u32}
use usbtrace.Records.{HubEvent, evt_hub, size_of_hub_event}
use usbtrace.Bpf.{KernelDev, Task, dev_match}
use usbtrace.Tracers.{DevConfig, KernelMemory, read_devpath, kptr_idx, kret_int}

-- `enum hub_action`.
abbrev pub hub_reset : ℕ
hub_reset = 0

abbrev pub hub_disable : ℕ
hub_disable = 1

abbrev pub hub_power_off : ℕ
hub_power_off = 2

abbrev pub hub_power_on : ℕ
hub_power_on = 3

abbrev pub hub_overcurrent : ℕ
hub_overcurrent = 4

-- `hub_child`: the device on a port, 0 if there is none.
unfoldable pub hub_child : KernelMemory → ℕ → ℤ → ℕ
hub_child k hub port1 =
    if hub == 0 || ltb_ℤ port1 (pos 1) || ltb_ℤ (pos 16) port1
    then 0
    else (let port = kptr_idx k (k.hub hub).ports (pos_part port1 - 1) in
        if port == 0 then 0 else (k.port port).child)

-- The record that `emit_dev` fills.
unfoldable pub hub_record : KernelDev → ℕ × ℕ → ℤ → ℕ → ℕ → ℕ → Task → ℕ → HubEvent
hub_record dev (vid, pid) port1 action warm oc_count task now = record {
  hdr = record { kind = evt_hub; size = size_of_hub_event; ts_ns = now };
  tgid = u32 task.tgid;
  oc_count = oc_count;
  vid = vid;
  product = pid;
  busnum = u16 dev.busnum;
  devnum = u16 dev.devnum;
  action = action;
  speed = u8 dev.speed;
  portnum = if ltb_ℤ (pos 0) port1 then u8 (cast_u32 port1) else u8 dev.portnum;
  warm = warm;
  devpath = read_devpath dev;
  comm = task.comm;
}

-- `emit_dev`.
unfoldable pub emit_dev : DevConfig → KernelMemory → Task → ℕ → ℕ → ℤ → ℕ → ℕ → ℕ → Option HubEvent
emit_dev cfg k task now dev port1 action warm oc_count =
    if dev == 0 then none else elim (dev_match (k.dev dev) cfg.filter_vid cfg.filter_pid) [
      | none ↦ none
      | some ids ↦ some (hub_record (k.dev dev) ids port1 action warm oc_count task now)
    ]

-- The device that `emit_hub_port` reports.
unfoldable pub port_device : KernelMemory → ℕ → ℤ → ℕ → ℕ
port_device k hub port1 udev =
    let dev = if udev == 0 then hub_child k hub port1 else udev in
    if dev == 0 then (if hub == 0 then 0 else (k.hub hub).hdev) else dev

-- `emit_hub_port`.
unfoldable pub emit_hub_port :
    DevConfig → KernelMemory → Task → ℕ → ℕ → ℤ → ℕ → ℕ → ℕ → ℕ → Option HubEvent
emit_hub_port cfg k task now hub port1 udev action warm oc_count =
    emit_dev cfg k task now (port_device k hub port1 udev) port1 action warm oc_count

-- A call of one of the programs, with its arguments.
pub data HubCall : Type 0 where
  port_reset : ℕ → ℕ → ℕ → HubCall
  port_disable : ℕ → ℕ → HubCall
  set_port_power : ℕ → ℕ → ℕ → ℕ → HubCall
  overcurrent : ℕ → HubCall

-- `on_port_reset`, `on_port_disable`, `on_set_port_power` and `on_overcurrent`.
unfoldable pub on_hub : DevConfig → KernelMemory → Task → ℕ → HubCall → Option HubEvent
on_hub cfg k task now (port_reset hub port1 udev) =
    emit_hub_port cfg k task now hub (kret_int port1) udev hub_reset 0 0
on_hub cfg k task now (port_disable hub port1) =
    emit_hub_port cfg k task now hub (kret_int port1) 0 hub_disable 0 0
on_hub cfg k task now (set_port_power hdev hub port1 set) =
    let child = hub_child k hub (kret_int port1) in
    let action = if u32 set == 0 then hub_power_off else hub_power_on in
    emit_dev cfg k task now (if child == 0 then hdev else child) (kret_int port1) action 0 0
on_hub cfg k task now (overcurrent port) =
    if port == 0
    then none
    else (let p = k.port port in
        if p.child == 0
        then none
        else emit_dev cfg k task now p.child (pos p.portnum) hub_overcurrent 0
            (u32 p.over_current_count))
