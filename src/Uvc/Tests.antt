-- ===== src/Uvc/Tests.antt =====
-- A camera whose frame is cut off by the next one, which ends with EOF.
use usbtrace.Common.{ℕ, ◌*◌, ◌≡◌, refl, true, false, [], Option, some, none, if◌then◌else◌, ◌==◌}
use usbtrace.Common.Int.{pos}
use usbtrace.Bpf.{KernelDev, Task, roomy_map, set_key, dev_match}
use usbtrace.Uvc.State.{UvcConfig, StreamState, StreamCorr, VideoUrb, Pool, max_isoc_pkts}
use usbtrace.Uvc.Vb2.{World}
use usbtrace.Uvc.Parse.{zero_stream, urb_key, parse_frames}
use usbtrace.Uvc.Segments.{payloads, zero_stream-Holds}
use usbtrace.Uvc.Frames.{Reported, parse_frames-Reported}

abbrev camera : KernelDev
camera = record {
  vid = 0x046d;
  product = 0x0825;
  busnum = 3;
  devnum = 9;
  state = 7;
  speed = 3;
  portnum = 1;
  devpath = [];
}

abbrev grabber : Task
grabber = record { pid_tgid = 0x1200000012; tgid = 18; comm = [] }

-- Three packets of 14 bytes with a header of two: FID 0, then FID 1, the last with EOF.
abbrev header_at : ℕ → ℕ → ℕ
header_at off i = if i == 0 then 2 else if off == 0 then 0 else if off == 64 then 1 else 3

abbrev video_urb : VideoUrb
video_urb = record {
  dev = camera;
  pipe = 0x10480;
  number_of_packets = pos 3;
  has_buffer = true;
  transfer_buffer_length = 192;
  desc = λ i. some (record { offset = i * 64; actual_length = 14; status = pos 0 });
  payload = λ off n. some (header_at off);
}

abbrev any_camera : UvcConfig
any_camera = record { filter_vid = 0; filter_pid = 0; no_frames = false; no_vb2 = false }

abbrev no_pool : ℕ → Pool
no_pool q = record { num_buffers = 0; queued_count = 0; owned_by_drv_count = 0 }

abbrev Quiet : Type 0
Quiet = World roomy_map roomy_map roomy_map

abbrev quiet : Quiet
quiet = record {
  stream_corr = λ k. none;
  vb2_dev_queue = λ k. none;
  vb2_queues = λ k. none;
  output = [];
}

abbrev one_stream : ℕ → Option StreamState
one_stream = set_key (λ k. none) (urb_key video_urb) zero_stream

parse_frames-Reported_example :
    (st' : StreamState) × ((roomy_map.lookup
          (parse_frames roomy_map roomy_map roomy_map roomy_map any_camera grabber no_pool video_urb
            5000 one_stream quiet).0
          (urb_key video_urb)
        ≡ some st')
      × Reported roomy_map roomy_map roomy_map quiet
          (
            (parse_frames roomy_map roomy_map roomy_map roomy_map any_camera grabber no_pool
                video_urb 5000 one_stream quiet).1,
            st',
          )
          []
          (payloads video_urb 0 max_isoc_pkts))
unfolding dev_match
parse_frames-Reported_example =
    parse_frames-Reported roomy_map roomy_map roomy_map roomy_map any_camera grabber no_pool
      video_urb 5000 (0x046d, 0x0825) zero_stream one_stream quiet [] refl refl refl
      zero_stream-Holds

abbrev last_wire : StreamCorr
last_wire = record {
  last_wire_done_ns = 1000;
  last_wire_bytes = 614400;
  vid = 0x046d;
  product = 0x0825;
  busnum = 3;
  devnum = 9;
}

abbrev wired : Quiet
wired = record quiet { stream_corr = set_key (λ k. none) 0 last_wire }
