-- ===== src/Diag/Normalize/Tests.antt =====
-- One complete record of a slow transfer.
use usbtrace.Common.{◌+◌, ◌%◌, ◌^◌, ◌≤◌, ◌<◌, ◌≡◌, ◌↔◌, refl, []}
use usbtrace.Common.Int.{pos}
use usbtrace.Records.{evt_urb}
use usbtrace.Diag.Event.{DiagEvent}
use usbtrace.Diag.Rule.{ev_field_val, f_latency_ns}
use usbtrace.Diag.Normalize.{RawRecord, normalize, from_urb, envelope}
use usbtrace.Diag.Normalize.Laws.{identity, normalize-identity, urb_latency_wraps}

-- The bytes read as an URB record; the other readings of them are not used.
abbrev urb_record : RawRecord
urb_record = record {
  hdr = record { kind = evt_urb; size = 80; ts_ns = 9000000000 };
  as_urb = record {
    hdr = record { kind = evt_urb; size = 80; ts_ns = 9000000000 };
    latency_ns = 5000000000;
    tgid = 0;
    length = 0;
    actual = 0;
    status = pos 0;
    vid = 0x046d;
    product = 0x082d;
    busnum = 1;
    devnum = 4;
    ep = 0;
    dir_in = 0;
    xfer_type = 0;
    is_submit = 0;
    comm = [];
    has_setup = 0;
    setup = λ i. 0;
  };
  as_enum = record {
    hdr = record { kind = evt_urb; size = 80; ts_ns = 9000000000 };
    tgid = 0;
    vid = 0;
    product = 0;
    busnum = 0;
    devnum = 0;
    old_state = 0;
    new_state = 0;
    speed = 0;
    portnum = 0;
    devpath = [];
    comm = [];
    status = pos 0;
    step = 0;
  };
  as_power = record {
    hdr = record { kind = evt_urb; size = 80; ts_ns = 9000000000 };
    tgid = 0;
    vid = 0;
    product = 0;
    busnum = 0;
    devnum = 0;
    action = 0;
    speed = 0;
    portnum = 0;
    devpath = [];
    comm = [];
  };
  as_lifecycle = record {
    hdr = record { kind = evt_urb; size = 80; ts_ns = 9000000000 };
    tgid = 0;
    vid = 0;
    product = 0;
    busnum = 0;
    devnum = 0;
    action = 0;
    speed = 0;
    portnum = 0;
    reset_resume = 0;
    devpath = [];
    comm = [];
  };
  as_hub = record {
    hdr = record { kind = evt_urb; size = 80; ts_ns = 9000000000 };
    tgid = 0;
    oc_count = 0;
    vid = 0;
    product = 0;
    busnum = 0;
    devnum = 0;
    action = 0;
    speed = 0;
    portnum = 0;
    warm = 0;
    devpath = [];
    comm = [];
  };
  as_class = record {
    hdr = record { kind = evt_urb; size = 80; ts_ns = 9000000000 };
    status = pos 0;
    error_count = pos 0;
    number_of_packets = 0;
    actual_length = 0;
    start_frame = pos 0;
    tgid = 0;
    vid = 0;
    product = 0;
    busnum = 0;
    devnum = 0;
    klass = 0;
    ep = 0;
    dir_in = 0;
    xfer_type = 0;
    comm = [];
  };
  as_frame = record {
    hdr = record { kind = evt_urb; size = 80; ts_ns = 9000000000 };
    bytes = 0;
    packets = 0;
    err_packets = 0;
    duration_ns = 0;
    interval_ns = 0;
    pts = 0;
    scr_stc = 0;
    scr_sof = 0;
    vid = 0;
    product = 0;
    busnum = 0;
    devnum = 0;
    ep = 0;
    errored = 0;
    eof = 0;
    fid = 0;
    comm = [];
  };
  as_vb2 = record {
    hdr = record { kind = evt_urb; size = 80; ts_ns = 9000000000 };
    sequence = 0;
    bytesused = 0;
    vb2_timestamp = 0;
    state = 0;
    interval_ns = 0;
    buf_index = 0;
    seq_gap = 0;
    vb2_op = 0;
    starved = 0;
    num_buffers = 0;
    queued = 0;
    drv_owned = 0;
    wire_to_vb2_ns = 0;
    vid = 0;
    product = 0;
    busnum = 0;
    devnum = 0;
    comm = [];
  };
}

abbrev urb_event : DiagEvent
urb_event = from_urb urb_record.as_urb (envelope urb_record.hdr)

normalize-identity_example :
    (urb_event.kind ≡ evt_urb)
    × (urb_event.ts_ns ≡ 9000000000)
    × ((urb_event.vid, urb_event.product, urb_event.busnum, urb_event.devnum) ≡ identity urb_record)
unfolding normalize
normalize-identity_example = normalize-identity urb_record 80 refl

urb_latency_wraps_example :
    (ev_field_val urb_event f_latency_ns ≡ pos (5000000000 % 2 ^ 32))
    × ((urb_event.latency_ns ≡ 5000000000) ↔ (5000000000 < 2 ^ 32))
    × (2 ^ 32 ≤ 5000000000 → urb_event.latency_ns + 2 ^ 32 ≤ 5000000000)
unfolding normalize
urb_latency_wraps_example = urb_latency_wraps urb_record 80 refl refl
