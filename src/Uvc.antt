-- ===== src/Uvc.antt =====
-- src/modules/uvc/uvc.bpf.c: video frames from isochronous packets, and their way through videobuf2.
pub mod State
pub mod Complete
pub mod Driver
pub mod Vb2
pub mod Parse
pub mod Segments
pub mod Output
pub mod Frames
pub mod Delay
mod Tests
