-- ===== src/Uvc/Driver/Tests.antt =====
-- A camera that loses a packet of a frame, which the driver then drops.
use usbtrace.Common.{◌≡◌, refl, true, false, List, [], ◌∷◌, some, if◌then◌else◌, ◌==◌}
use usbtrace.Common.Int.{pos, negsuc}
use usbtrace.Records.{drv_drop}
use usbtrace.Bpf.{KernelDev, dev_match, roomy_map, set_key_self}
use usbtrace.Uvc.State.{UvcConfig}
use usbtrace.Uvc.Driver.{
  UvcStreaming, UvcBuffer, UvcQueue, IsoUrb, is_video_buffer, stream_usb, drv_record, sees_loss,
  is_short, on_queue_complete,
}
use usbtrace.Uvc.Driver.Drops.{
  DriverCall, decode, complete, cause, has_loss, causes_after, on_queue_complete-cause,
}

abbrev camera : KernelDev
camera = record {
  vid = 0x046d;
  product = 0x082d;
  busnum = 1;
  devnum = 4;
  state = 7;
  speed = 3;
  portnum = 2;
  devpath = [];
}

abbrev any : UvcConfig
any = record { filter_vid = 0; filter_pid = 0; no_frames = false; no_vb2 = false }

abbrev raw_video : UvcStreaming
raw_video = record { dev = some camera; max_frame_size = 614400; format_flags = some 0 }

abbrev buffer : UvcBuffer
buffer = record { address = 0x1000; type = 1; error = 1; bytesused = 614400 }

abbrev queue : UvcQueue
queue = record { flags = 2; stream = some raw_video }

-- The packet 3 is lost.
abbrev lossy : IsoUrb
lossy = record {
  number_of_packets = pos 8;
  desc = λ i.
      some
        (record { offset = 0; actual_length = 100; status = if i == 3 then negsuc 17 else pos 0 });
}

abbrev calls : List DriverCall
calls = decode (some raw_video) (some lossy) buffer ∷ complete (some queue) buffer 5 ∷ []

usb_found : stream_usb any raw_video ≡ some ((0x046d, 0x082d), (1, 4))
unfolding stream_usb dev_match
usb_found = refl

is_video : is_video_buffer buffer ≡ true
unfolding is_video_buffer
is_video = refl

a_lost_packet : cause (has_loss any calls 0x1000) (is_short raw_video buffer) ≡ 2
unfolding is_short is_video_buffer stream_usb dev_match sees_loss
a_lost_packet = refl

on_queue_complete-cause_example :
    (on_queue_complete roomy_map any (some queue) buffer 9 (causes_after roomy_map any calls)).1
    ≡ some (
        drv_record drv_drop
          (cause (has_loss any calls 0x1000) (is_short raw_video buffer))
          ((0x046d, 0x082d), (1, 4))
          9)
on_queue_complete-cause_example =
    on_queue_complete-cause roomy_map any calls queue raw_video ((0x046d, 0x082d), (1, 4)) buffer 9
      set_key_self is_video refl usb_found refl refl
