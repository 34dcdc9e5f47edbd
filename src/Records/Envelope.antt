-- ===== src/Records/Envelope.antt =====
-- include/usbtrace/common.h: the envelope of each record, and what tells the records apart.
use usbtrace.Common.{ℕ}

-- `enum usbtrace_event_kind`.
abbrev pub evt_urb : ℕ
evt_urb = 1

abbrev pub evt_enum : ℕ
evt_enum = 2

abbrev pub evt_power : ℕ
evt_power = 3

abbrev pub evt_lifecycle : ℕ
evt_lifecycle = 4

abbrev pub evt_class : ℕ
evt_class = 5

abbrev pub evt_uvc_frame : ℕ
evt_uvc_frame = 6

abbrev pub evt_uvc_vb2 : ℕ
evt_uvc_vb2 = 7

abbrev pub evt_uvc_drv : ℕ
evt_uvc_drv = 8

abbrev pub evt_hub : ℕ
evt_hub = 9

-- `enum usbtrace_class`.
abbrev pub class_video : ℕ
class_video = 0

abbrev pub class_audio : ℕ
class_audio = 1

abbrev pub class_hid : ℕ
class_hid = 2

abbrev pub class_storage : ℕ
class_storage = 3

-- `struct usbtrace_event_hdr`.
pub record EventHdr : Type 0 where
  pub kind : ℕ
  pub size : ℕ
  pub ts_ns : ℕ

abbrev pub size_of_hdr : ℕ
size_of_hdr = 16
