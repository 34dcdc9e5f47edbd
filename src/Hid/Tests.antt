-- ===== src/Hid/Tests.antt =====
-- A mouse that reports every eight milliseconds.
use usbtrace.Common.{[], true, arith}
use usbtrace.Common.Int.{pos}
use usbtrace.Records.{ClassUrbEvent, evt_class, class_hid}
use usbtrace.Hid.{Slot, Meter, fresh_slot, note_report, hid_on_event}
use usbtrace.Hid.Slots.{IsTable, no_slots-IsTable, hid_on_event-IsTable}
use usbtrace.Hid.Intervals.{IntervalsAgree, note_report-IntervalsAgree}

abbrev report : ClassUrbEvent
report = record {
  hdr = record { kind = evt_class; size = 72; ts_ns = 8000000 };
  status = pos 0;
  error_count = pos 0;
  number_of_packets = 0;
  actual_length = 4;
  start_frame = pos 0;
  tgid = 0;
  vid = 0x1c4f;
  product = 0x0002;
  busnum = 1;
  devnum = 3;
  klass = class_hid;
  ep = 1;
  dir_in = 1;
  xfer_type = 1;
  comm = [];
}

abbrev mouse_slot : Slot
mouse_slot = record (fresh_slot 1 3 1 0x1c4f 0x0002) {
  last_ts_ns = 1000000;
  win_iv_count = 2;
  win_sum_iv_ns = 15000000;
  win_min_iv_ns = 7000000;
  win_max_iv_ns = 8000000;
}

note_report-IntervalsAgree_example : IntervalsAgree (note_report mouse_slot report)
unfolding fresh_slot
note_report-IntervalsAgree_example =
    note_report-IntervalsAgree mouse_slot report (omega arith) (omega arith)

abbrev meter : Meter
meter = record { rate = true; rate_sec = 1; slots = []; window_start_ns = 0; lines = [] }

hid_on_event-IsTable_example : IsTable (hid_on_event meter report 72).slots
hid_on_event-IsTable_example = hid_on_event-IsTable meter report 72 no_slots-IsTable
