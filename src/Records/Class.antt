-- ===== src/Records/Class.antt =====
-- include/usbtrace/class.h and uvc.h: the records of the class-traffic modules.
use usbtrace.Common.{ℕ, List}
use usbtrace.Common.Int.{ℤ}
use usbtrace.Records.Envelope.{EventHdr}

pub record ClassUrbEvent : Type 0 where
  pub hdr : EventHdr
  pub status : ℤ
  pub error_count : ℤ
  pub number_of_packets : ℕ
  pub actual_length : ℕ
  pub start_frame : ℤ
  pub tgid : ℕ
  pub vid : ℕ
  pub product : ℕ
  pub busnum : ℕ
  pub devnum : ℕ
  pub klass : ℕ
  pub ep : ℕ
  pub dir_in : ℕ
  pub xfer_type : ℕ
  pub comm : List ℕ

abbrev pub size_of_class_urb_event : ℕ
size_of_class_urb_event = 72

pub record UvcFrameEvent : Type 0 where
  pub hdr : EventHdr
  pub bytes : ℕ
  pub packets : ℕ
  pub err_packets : ℕ
  pub duration_ns : ℕ
  pub interval_ns : ℕ
  pub pts : ℕ
  pub scr_stc : ℕ
  pub scr_sof : ℕ
  pub vid : ℕ
  pub product : ℕ
  pub busnum : ℕ
  pub devnum : ℕ
  pub ep : ℕ
  pub errored : ℕ
  pub eof : ℕ
  pub fid : ℕ
  pub comm : List ℕ

abbrev pub size_of_uvc_frame_event : ℕ
size_of_uvc_frame_event = 80

pub record UvcVb2Event : Type 0 where
  pub hdr : EventHdr
  pub sequence : ℕ
  pub bytesused : ℕ
  pub vb2_timestamp : ℕ
  pub state : ℕ
  pub interval_ns : ℕ
  pub buf_index : ℕ
  pub seq_gap : ℕ
  pub vb2_op : ℕ
  pub starved : ℕ
  pub num_buffers : ℕ
  pub queued : ℕ
  pub drv_owned : ℕ
  pub wire_to_vb2_ns : ℕ
  pub vid : ℕ
  pub product : ℕ
  pub busnum : ℕ
  pub devnum : ℕ
  pub comm : List ℕ

abbrev pub size_of_uvc_vb2_event : ℕ
size_of_uvc_vb2_event = 80

pub record UvcDrvEvent : Type 0 where
  pub hdr : EventHdr
  pub drv_op : ℕ
  pub reason : ℕ
  pub vid : ℕ
  pub product : ℕ
  pub busnum : ℕ
  pub devnum : ℕ

abbrev pub size_of_uvc_drv_event : ℕ
size_of_uvc_drv_event = 32

-- `enum uvc_drv_op`.
abbrev pub drv_recv : ℕ
drv_recv = 0

abbrev pub drv_drop : ℕ
drv_drop = 1

-- `UVC_DROP_SHORT`, `UVC_DROP_ISO` and `UVC_DROP_OTHER`.
abbrev pub drop_short_bit : ℕ
drop_short_bit = 1

abbrev pub drop_iso_bit : ℕ
drop_iso_bit = 2

abbrev pub drop_other_bit : ℕ
drop_other_bit = 4
