-- ===== src/Records/Core.antt =====
-- The records of the urb, enum, power, lifecycle and hub modules.
use usbtrace.Common.{ℕ, List}
use usbtrace.Common.Int.{ℤ}
use usbtrace.Records.Envelope.{EventHdr}

pub record UrbEvent : Type 0 where
  pub hdr : EventHdr
  pub latency_ns : ℕ
  pub tgid : ℕ  -- `pid`
  pub length : ℕ
  pub actual : ℕ
  pub status : ℤ
  pub vid : ℕ
  pub product : ℕ
  pub busnum : ℕ
  pub devnum : ℕ
  pub ep : ℕ
  pub dir_in : ℕ
  pub xfer_type : ℕ
  pub is_submit : ℕ
  pub comm : List ℕ
  pub has_setup : ℕ
  pub setup : ℕ → ℕ  -- eight bytes

abbrev pub size_of_urb_event : ℕ
size_of_urb_event = 80

pub record EnumEvent : Type 0 where
  pub hdr : EventHdr
  pub tgid : ℕ
  pub vid : ℕ
  pub product : ℕ
  pub busnum : ℕ
  pub devnum : ℕ
  pub old_state : ℕ
  pub new_state : ℕ
  pub speed : ℕ
  pub portnum : ℕ
  pub devpath : List ℕ
  pub comm : List ℕ
  pub status : ℤ
  pub step : ℕ

abbrev pub size_of_enum_event : ℕ
size_of_enum_event = 72

pub record PowerRec : Type 0 where
  pub hdr : EventHdr
  pub tgid : ℕ
  pub vid : ℕ
  pub product : ℕ
  pub busnum : ℕ
  pub devnum : ℕ
  pub action : ℕ
  pub speed : ℕ
  pub portnum : ℕ
  pub devpath : List ℕ
  pub comm : List ℕ

abbrev pub size_of_power_rec : ℕ
size_of_power_rec = 64

pub record LifecycleEvent : Type 0 where
  pub hdr : EventHdr
  pub tgid : ℕ
  pub vid : ℕ
  pub product : ℕ
  pub busnum : ℕ
  pub devnum : ℕ
  pub action : ℕ
  pub speed : ℕ
  pub portnum : ℕ
  pub reset_resume : ℕ
  pub devpath : List ℕ
  pub comm : List ℕ

abbrev pub size_of_lifecycle_event : ℕ
size_of_lifecycle_event = 64

pub record HubEvent : Type 0 where
  pub hdr : EventHdr
  pub tgid : ℕ
  pub oc_count : ℕ
  pub vid : ℕ
  pub product : ℕ
  pub busnum : ℕ
  pub devnum : ℕ
  pub action : ℕ
  pub speed : ℕ
  pub portnum : ℕ
  pub warm : ℕ
  pub devpath : List ℕ
  pub comm : List ℕ

abbrev pub size_of_hub_event : ℕ
size_of_hub_event = 72
