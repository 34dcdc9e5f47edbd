-- ===== src/UvcReport.antt =====
-- src/modules/uvc/uvc.c: the statistics of a session, and what is printed as it goes.
pub mod Tallies
pub mod Summary
mod Tests
use Prim.Native.Nat.{bit_and}
use usbtrace.Common.{
  ℕ, ◌+◌, ◌*◌, ◌/◌, Bool, true, false, List, [], ◌∷◌, ◌++◌, Option, none, some, if◌then◌else◌, ◌&&◌,
  ◌||◌, not, ◌==◌, ltb,
}
use usbtrace.Common.Int.{ℤ, pos, negsuc}
use usbtrace.Common.Word.{u32, u64}
use usbtrace.Records.{
  EventHdr, UvcFrameEvent, UvcDrvEvent, size_of_uvc_drv_event, drv_recv, drv_drop, drop_short_bit,
  drop_iso_bit, drop_other_bit, UvcVb2Event, ClassUrbEvent, evt_uvc_frame, evt_uvc_vb2, evt_uvc_drv,
  size_of_hdr, size_of_uvc_frame_event, size_of_uvc_vb2_event,
}
use usbtrace.Cli.{Filter, filter_getopt}
use usbtrace.Uvc.Vb2.{op_done, op_starved}
use usbtrace.ClassStream.{StreamCtx, stream_on_event}

-- `g_fstats`.
pub record FrameStats : Type 0 where
  pub frames : ℕ
  pub errored : ℕ
  pub bytes : ℕ
  pub intervals : ℕ
  pub sum_interval_ns : ℕ
  pub min_interval_ns : ℕ
  pub max_interval_ns : ℕ

-- `g_vbstats`.
pub record Vb2Stats : Type 0 where
  pub buffers_done : ℕ
  pub seq_gaps : ℕ
  pub starvations : ℕ
  pub wire_corr : ℕ
  pub bytes : ℕ
  pub intervals : ℕ
  pub sum_interval_ns : ℕ
  pub sum_wire_to_vb2_ns : ℕ
  pub min_interval_ns : ℕ
  pub max_interval_ns : ℕ

-- `g_drvstats`.
pub record DrvStats : Type 0 where
  pub received : ℕ
  pub dropped : ℕ
  pub drop_short : ℕ
  pub drop_iso : ℕ
  pub drop_other : ℕ

-- `min_interval_ns` and `max_interval_ns` after an interval; 0 stands for none.
abbrev pub least_of : ℕ → ℕ → ℕ
least_of m i = if i == 0 then m else if m == 0 || ltb i m then i else m

abbrev pub greatest_of : ℕ → ℕ → ℕ
greatest_of m i = if i == 0 then m else if ltb m i then i else m

abbrev pub count_when : Bool → ℕ → ℕ
count_when b n = if b then u64 (n + 1) else n

-- `tally_frame`.
unfoldable pub tally_frame : FrameStats → UvcFrameEvent → FrameStats
tally_frame s e = record {
  frames = u64 (s.frames + 1);
  errored = count_when (not (e.errored == 0)) s.errored;
  bytes = u64 (s.bytes + e.bytes);
  intervals = count_when (not (e.interval_ns == 0)) s.intervals;
  sum_interval_ns =
      if e.interval_ns == 0 then s.sum_interval_ns else u64 (s.sum_interval_ns + e.interval_ns);
  min_interval_ns = least_of s.min_interval_ns e.interval_ns;
  max_interval_ns = greatest_of s.max_interval_ns e.interval_ns;
}

-- `tally_vb2`.
unfoldable pub tally_vb2 : Vb2Stats → UvcVb2Event → Vb2Stats
tally_vb2 s e =
    let done = e.vb2_op == op_done in
    let interval = if done then e.interval_ns else 0 in
    record {
      buffers_done = count_when done s.buffers_done;
      seq_gaps = count_when (not (e.seq_gap == 0)) s.seq_gaps;
      starvations = count_when (not (e.starved == 0) || e.vb2_op == op_starved) s.starvations;
      wire_corr = count_when (not (e.wire_to_vb2_ns == 0)) s.wire_corr;
      bytes = if done then u64 (s.bytes + e.bytesused) else s.bytes;
      intervals = count_when (not (interval == 0)) s.intervals;
      sum_interval_ns =
          if interval == 0 then s.sum_interval_ns else u64 (s.sum_interval_ns + interval);
      sum_wire_to_vb2_ns =
          if e.wire_to_vb2_ns == 0
          then s.sum_wire_to_vb2_ns
          else u64 (s.sum_wire_to_vb2_ns + e.wire_to_vb2_ns);
      min_interval_ns = least_of s.min_interval_ns interval;
      max_interval_ns = greatest_of s.max_interval_ns interval;
    }

abbrev pub has_reason : ℕ → ℕ → Bool
has_reason reason bit = not (bit_and reason bit == 0)

-- `tally_drv`.
unfoldable pub tally_drv : DrvStats → UvcDrvEvent → DrvStats
tally_drv s e =
    if e.drv_op == drv_recv
    then record s { received = u64 (s.received + 1) }
    else if e.drv_op == drv_drop
    then record s {
      dropped = u64 (s.dropped + 1);
      drop_short = count_when (has_reason e.reason drop_short_bit) s.drop_short;
      drop_iso = count_when (has_reason e.reason drop_iso_bit) s.drop_iso;
      drop_other = count_when (has_reason e.reason drop_other_bit) s.drop_other;
    }
    else s

-- The bytes at `data`, as each of the structs that `uvc_on_event` may read them as.
pub record UvcRaw : Type 0 where
  pub hdr : EventHdr
  pub as_frame : UvcFrameEvent
  pub as_vb2 : UvcVb2Event
  pub as_drv : UvcDrvEvent
  pub as_class : ClassUrbEvent

-- What is printed as the session goes, and its static variables; `g_ctx` is `stream`.
pub data UvcLine : Type 0 where
  frame_line : UvcFrameEvent → UvcLine
  vb2_line : UvcVb2Event → UvcLine

pub record UvcCtx : Type 0 where
  pub fps_target : ℕ
  pub stream : StreamCtx
  pub frame_stats : FrameStats
  pub vb2_stats : Vb2Stats
  pub drv_stats : DrvStats
  pub lines : List UvcLine

abbrev pub print_if : Bool → UvcLine → List UvcLine → List UvcLine
print_if b line lines = if b then lines ++ (line ∷ []) else lines

-- `g_fps_target && e->interval_ns && fps_of(e->interval_ns) < (double)g_fps_target`. The quotient
-- 1e9 / interval differs from a target that it is below by 1 / interval at least, which is more than
-- the rounding of a `double`.
abbrev pub is_slow : ℕ → ℕ → Bool
is_slow target interval =
    not (target == 0) && (not (interval == 0) && ltb 1000000000 (target * interval))

-- `handle_frame`.
unfoldable pub handle_frame : UvcCtx → UvcFrameEvent → ℕ → UvcCtx
handle_frame c e len = if ltb len size_of_uvc_frame_event then c else record c {
  frame_stats = tally_frame c.frame_stats e;
  lines =
      print_if (c.stream.all || (not (e.errored == 0) || is_slow c.fps_target e.interval_ns))
        (frame_line e) c.lines;
}

-- `handle_vb2`.
unfoldable pub handle_vb2 : UvcCtx → UvcVb2Event → ℕ → UvcCtx
handle_vb2 c e len = if ltb len size_of_uvc_vb2_event then c else record c {
  vb2_stats = tally_vb2 c.vb2_stats e;
  lines =
      print_if
        (c.stream.all || (not (e.seq_gap == 0) || (not (e.starved == 0) || e.vb2_op == op_starved)))
        (vb2_line e) c.lines;
}

-- `handle_drv`.
unfoldable pub handle_drv : UvcCtx → UvcDrvEvent → ℕ → UvcCtx
handle_drv c e len =
    if ltb len size_of_uvc_drv_event then c else record c { drv_stats = tally_drv c.drv_stats e }

-- `uvc_on_event`, for the `len` bytes at `data`.
unfoldable pub uvc_on_event : UvcCtx → UvcRaw → ℕ → UvcCtx
uvc_on_event c raw len =
    if ltb len size_of_hdr
    then c
    else if raw.hdr.kind == evt_uvc_frame
    then handle_frame c raw.as_frame len
    else if raw.hdr.kind == evt_uvc_vb2
    then handle_vb2 c raw.as_vb2 len
    else if raw.hdr.kind == evt_uvc_drv
    then handle_drv c raw.as_drv len
    else record c { stream = stream_on_event c.stream raw.as_class len }
