-- ===== src/ClassUrb/Tests.antt =====
-- Three completions, of which the filter takes two and the buffer one.
use usbtrace.Common.{◌≡◌, ◌+◌, true, false, arith, List, [], ◌∷◌}
use usbtrace.Common.Int.{pos}
use usbtrace.Records.{class_audio}
use usbtrace.Bpf.{KernelDev, Task, dev_match}
use usbtrace.ClassStream.{StreamCtx, stream_all}
use usbtrace.ClassUrb.{ClassConfig, CompletedUrb}
use usbtrace.ClassUrb.Session.{Completion, emitted, stream_all-emitted}

abbrev headset : KernelDev
headset = record {
  vid = 0x0d8c;
  product = 0x0014;
  busnum = 1;
  devnum = 5;
  state = 7;
  speed = 2;
  portnum = 3;
  devpath = [];
}

abbrev player : Task
player = record { pid_tgid = 0x2a0000002a; tgid = 42; comm = [] }

abbrev played : CompletedUrb
played = record {
  dev = headset;
  pipe = 0x8500;
  status = pos 0;
  error_count = pos 0;
  number_of_packets = pos 8;
  actual_length = 192;
  start_frame = pos 0;
}

abbrev other : CompletedUrb
other = record played { dev = record headset { vid = 0x046d } }

abbrev only_headset : ClassConfig
only_headset = record { filter_vid = 0x0d8c; filter_pid = 0 }

abbrev idle : StreamCtx
idle = record {
  all = false;
  stats = record { urbs = 0; isoc_err = 0; status_err = 0; bytes = 0 };
  printed = [];
}

-- One of each device, and one of the headset for which the buffer has no room.
abbrev completions : List Completion
completions =
    record { task = player; urb = played; now = 10; has_room = true }
    ∷ record { task = player; urb = other; now = 20; has_room = true }
    ∷ record { task = player; urb = played; now = 30; has_room = false }
    ∷ []

stream_all-emitted_example :
    ((stream_all idle (emitted only_headset class_audio completions)).stats.urbs ≡ 1)
    × ((stream_all idle (emitted only_headset class_audio completions)).stats.bytes ≡ 192)
    × (1 + 1 ≡ 2)
unfolding dev_match
stream_all-emitted_example =
    stream_all-emitted idle only_headset class_audio completions (omega arith)
