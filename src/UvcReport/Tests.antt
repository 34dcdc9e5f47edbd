-- ===== src/UvcReport/Tests.antt =====
-- A session of three frames, one of them broken, and a cut record.
use usbtrace.Common.{◌≡◌, refl, ℕ, List, [], ◌∷◌, true, false, arith}
use usbtrace.Common.Int.{pos}
use usbtrace.Records.{UvcFrameEvent, UvcVb2Event, ClassUrbEvent, evt_uvc_frame}
use usbtrace.UvcReport.{FrameStats, UvcCtx, UvcRaw, tally_frame, uvc_on_event, handle_frame}
use usbtrace.UvcReport.Summary.{gap_notes, gap_note, driver_drops, slow_app}
use usbtrace.UvcReport.Tallies.{Measures, frames_of, on_events, on_events-Measures}

abbrev good_frame : UvcFrameEvent
good_frame = record {
  hdr = record { kind = evt_uvc_frame; size = 80; ts_ns = 1000 };
  bytes = 614400;
  packets = 210;
  err_packets = 0;
  duration_ns = 26000000;
  interval_ns = 33300000;
  pts = 7;
  scr_stc = 8;
  scr_sof = 9;
  vid = 0x046d;
  product = 0x082d;
  busnum = 1;
  devnum = 4;
  ep = 1;
  errored = 0;
  eof = 1;
  fid = 0;
  comm = [];
}

abbrev no_vb2_event : UvcVb2Event
no_vb2_event = record {
  hdr = good_frame.hdr;
  sequence = 0;
  bytesused = 0;
  vb2_timestamp = 0;
  state = 0;
  interval_ns = 0;
  buf_index = 0;
  seq_gap = 0;
  vb2_op = 0;
  starved = 0;
  num_buffers = 0;
  queued = 0;
  drv_owned = 0;
  wire_to_vb2_ns = 0;
  vid = 0;
  product = 0;
  busnum = 0;
  devnum = 0;
  comm = [];
}

abbrev no_class_event : ClassUrbEvent
no_class_event = record {
  hdr = good_frame.hdr;
  status = pos 0;
  error_count = pos 0;
  number_of_packets = 0;
  actual_length = 0;
  start_frame = pos 0;
  tgid = 0;
  vid = 0;
  product = 0;
  busnum = 0;
  devnum = 0;
  klass = 0;
  ep = 0;
  dir_in = 0;
  xfer_type = 0;
  comm = [];
}

abbrev raw_frame : UvcFrameEvent → UvcRaw
raw_frame e = record {
  hdr = e.hdr;
  as_frame = e;
  as_vb2 = no_vb2_event;
  as_drv = record {
    hdr = e.hdr;
    drv_op = 0;
    reason = 0;
    vid = 0;
    product = 0;
    busnum = 0;
    devnum = 0;
  };
  as_class = no_class_event;
}

abbrev zero_frames : FrameStats
zero_frames = record {
  frames = 0;
  errored = 0;
  bytes = 0;
  intervals = 0;
  sum_interval_ns = 0;
  min_interval_ns = 0;
  max_interval_ns = 0;
}

abbrev session : UvcCtx
session = record {
  fps_target = 30;
  stream = record {
    all = false;
    stats = record { urbs = 0; isoc_err = 0; status_err = 0; bytes = 0 };
    printed = [];
  };
  frame_stats = zero_frames;
  vb2_stats = record {
    buffers_done = 0;
    seq_gaps = 0;
    starvations = 0;
    wire_corr = 0;
    bytes = 0;
    intervals = 0;
    sum_interval_ns = 0;
    sum_wire_to_vb2_ns = 0;
    min_interval_ns = 0;
    max_interval_ns = 0;
  };
  drv_stats = record { received = 0; dropped = 0; drop_short = 0; drop_iso = 0; drop_other = 0 };
  lines = [];
}

abbrev records : List (UvcRaw × ℕ)
records =
    (raw_frame (record good_frame { interval_ns = 0 }), 80)
    ∷ (raw_frame good_frame, 80)
    ∷ (raw_frame good_frame, 40)
    ∷ (raw_frame (record good_frame { errored = 1; interval_ns = 66600000 }), 80)
    ∷ []

shortest : (on_events session records).frame_stats.min_interval_ns ≡ 33300000
unfolding on_events uvc_on_event handle_frame tally_frame
shortest = refl

no_slow_frame : (on_events session ((raw_frame good_frame, 80) ∷ [])).lines ≡ []
unfolding on_events uvc_on_event handle_frame
no_slow_frame = refl

two_notes :
    gap_notes true zero_frames
      (record session.vb2_stats { seq_gaps = 2; starvations = 1 })
      (record session.drv_stats { dropped = 2 })
    ≡ slow_app ∷ driver_drops ∷ []
unfolding gap_notes gap_note
two_notes = refl

on_events-Measures_example :
    Measures session.frame_stats (on_events session records).frame_stats (frames_of records)
on_events-Measures_example = on_events-Measures session records (omega arith)
