-- ===== src/ClassStream/Tests.antt =====
-- A session of two class records, one of them with a packet error.
use usbtrace.Common.{◌≡◌, refl, ◌∷◌, [], false}
use usbtrace.Common.Int.{pos}
use usbtrace.Records.{ClassUrbEvent, evt_class, class_audio}
use usbtrace.ClassStream.{StreamCtx, stream_all, stream_on_event, tally_urb}

abbrev audio_urb : ClassUrbEvent
audio_urb = record {
  hdr = record { kind = evt_class; size = 72; ts_ns = 10 };
  status = pos 0;
  error_count = pos 0;
  number_of_packets = 8;
  actual_length = 192;
  start_frame = pos 0;
  tgid = 1;
  vid = 0x0d8c;
  product = 0x0014;
  busnum = 1;
  devnum = 5;
  klass = class_audio;
  ep = 4;
  dir_in = 1;
  xfer_type = 0;
  comm = [];
}

abbrev broken_urb : ClassUrbEvent
broken_urb = record audio_urb { error_count = pos 2; actual_length = 144 }

abbrev session : StreamCtx
session = record {
  all = false;
  stats = record { urbs = 0; isoc_err = 0; status_err = 0; bytes = 0 };
  printed = [];
}

two_urbs :
    (stream_all session (audio_urb ∷ broken_urb ∷ [])).stats
    ≡ record { urbs = 2; isoc_err = 1; status_err = 0; bytes = 336 }
unfolding stream_all stream_on_event tally_urb
two_urbs = refl
