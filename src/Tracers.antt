-- ===== src/Tracers.antt =====
-- The kernel-side tracers of devices and ports, src/modules/{enum,lifecycle,power,hub}/*.bpf.c, and
-- include/usbtrace/pt_regs.bpf.h on a 64-bit kernel. The kernel's memory is a parameter: what a
-- program reads at an address, 0 where the read fails.
mod Pending
pub mod Names
pub mod Enum
pub mod Lifecycle
pub mod Power
pub mod Hub
mod Tests
use usbtrace.Common.{ℕ, ◌+◌, ◌*◌, ◌-◌, ◌^◌, ◌%◌, List, take, if◌then◌else◌, ◌==◌, ltb, leb, ◌||◌}
use usbtrace.Common.Int.{ℤ, pos}
use usbtrace.Common.Word.{u32, sign_32}
use usbtrace.Bpf.{KernelDev}

-- `struct enum_config`, `lifecycle_config`, `power_config` and `hub_config`.
pub record DevConfig : Type 0 where
  pub filter_vid : ℕ
  pub filter_pid : ℕ

-- What the hub programs read of a `struct usb_hub` and of a `struct usb_port`.
pub record KernelHub : Type 0 where
  pub ports : ℕ
  pub hdev : ℕ

pub record KernelPort : Type 0 where
  pub child : ℕ
  pub portnum : ℕ
  pub over_current_count : ℕ

-- The kernel's memory by address.
pub record KernelMemory : Type 0 where
  pub dev : ℕ → KernelDev
  pub reset_resume : ℕ → ℕ
  pub hub : ℕ → KernelHub
  pub port : ℕ → KernelPort
  pub pointer : ℕ → ℕ

-- `BPF_CORE_READ_STR_INTO` of a `char devpath[16]`, without its NUL.
abbrev pub read_devpath : KernelDev → List ℕ
read_devpath d = take 15 d.devpath

-- `usbtrace_read_kptr`.
unfoldable pub read_kptr : KernelMemory → ℕ → ℕ
read_kptr k addr = if addr == 0 then 0 else k.pointer addr

-- `usbtrace_kptr_idx`, at an index that is not negative.
unfoldable pub kptr_idx : KernelMemory → ℕ → ℕ → ℕ
kptr_idx k arr idx = if arr == 0 || ltb 15 idx then 0 else read_kptr k (arr + idx * 8)

-- `(int)` of a register: an argument, or the return value as in `usbtrace_kret_int`.
unfoldable pub kret_int : ℕ → ℤ
kret_int rc = sign_32 (u32 rc)

-- `usbtrace_kret_ptr_or_int` of the return register.
unfoldable pub kret_ptr_or_int : ℕ → ℤ
kret_ptr_or_int rc =
    if leb (2 ^ 64 - 4095) rc then sign_32 (u32 rc) else if ltb rc 4096 then pos rc else pos 0
