-- ===== src/Uvc/Parse.antt =====
-- uvc.bpf.c: frames reconstructed from the packets of an isochronous URB.
use Prim.Native.Nat.{bit_or}
use usbtrace.Common.{
  ℕ, zero, suc, ◌+◌, ◌-◌, ◌*◌, ◌/◌, ◌%◌, ◌^◌, Bool, true, false, [], ◌∷◌, ◌++◌, Option, none, some,
  if◌then◌else◌, ◌&&◌, ◌||◌, not, ◌==◌, ltb, leb,
}
use usbtrace.Common.Int.{ℤ, pos, ltb_ℤ}
use usbtrace.Common.Word.{◌==ℤ◌, u16, u32, sub_u64}
use usbtrace.Records.{UvcFrameEvent, evt_uvc_frame, size_of_uvc_frame_event}
use usbtrace.Bpf.{KeyMap, Task, dev_match}
use usbtrace.Uvc.State.{
  UvcConfig, StreamState, QState, StreamCorr, IsoDesc, VideoUrb, Pool, frame, max_isoc_pkts,
}
use usbtrace.Uvc.Vb2.{World, flag_of, note_wire_frame, check_starvation}

-- `uvc_load_le32` and `uvc_load_le16` at an offset of the header.
unfoldable pub load_le16 : (ℕ → ℕ) → ℕ → ℕ
load_le16 h i = h i + 2 ^ 8 * h (i + 1)

unfoldable pub load_le32 : (ℕ → ℕ) → ℕ → ℕ
load_le32 h i = h i + 2 ^ 8 * h (i + 1) + 2 ^ 16 * h (i + 2) + 2 ^ 24 * h (i + 3)

-- A bit of `bmHeaderInfo`: EOF is 1, PTS 2, SCR 3 and ERR 6.
abbrev pub header_bit : ℕ → ℕ → Bool
header_bit bfh k = bfh / 2 ^ k % 2 == 1

-- A packet whose payload header is well formed: its `hdr`, and `pbytes`.
pub record Packet : Type 0 where
  pub header : ℕ → ℕ
  pub bytes : ℕ

abbrev pub packet_fid : Packet → ℕ
packet_fid p = p.header 1 % 2

abbrev pub packet_eof : Packet → Bool
packet_eof p = header_bit (p.header 1) 1

-- The bytes of the payload header: twelve if the buffer has room for them, else two.
unfoldable pub read_header : VideoUrb → ℕ → Option (ℕ → ℕ)
read_header urb off =
    if leb (u32 (off + 12)) urb.transfer_buffer_length
    then urb.payload off 12
    else elim (urb.payload off 2) [ none ↦ none | some h ↦ some (λ i. if ltb i 2 then h i else 0) ]

-- The tests of the loop that `continue`: does the descriptor hold a payload?
unfoldable pub payload_of : VideoUrb → IsoDesc → Option Packet
payload_of urb d =
    if d.actual_length == 0
    then none
    else if ltb urb.transfer_buffer_length (u32 (d.offset + 2))
    then none
    else elim (read_header urb d.offset) [
      | none ↦ none
      | some h ↦
          if ltb (h 0) 2 || ltb d.actual_length (h 0)
          then none
          else some (record { header = h; bytes = d.actual_length - h 0 })
    ]

-- `if (d.status)`.
unfoldable pub note_status : IsoDesc → StreamState → StreamState
note_status d st =
    if d.status ==ℤ pos 0
    then st
    else (record st { saw_err = true; cur_err_packets = u32 (st.cur_err_packets + 1) })

-- A frame that starts with a packet.
unfoldable pub start_frame : ℕ → ℕ → StreamState → StreamState
start_frame fid now st = record st {
  active = true;
  have_fid = true;
  cur_fid = fid;
  frame_start_ts = now;
}

-- What a packet adds to the frame.
unfoldable pub add_packet : Packet → StreamState → StreamState
add_packet p st =
    let bfh = p.header 1 in
    let hlen = p.header 0 in
    let pts = header_bit bfh 2 && leb 6 hlen in
    let scr = header_bit bfh 2 && (header_bit bfh 3 && leb 12 hlen) in
    record st {
      cur_bytes = u32 (st.cur_bytes + p.bytes);
      cur_packets = u32 (st.cur_packets + 1);
      saw_err = if header_bit bfh 6 then true else st.saw_err;
      cur_pts = if pts then load_le32 p.header 2 else st.cur_pts;
      cur_scr_stc = if scr then load_le32 p.header 6 else st.cur_scr_stc;
      cur_scr_sof = if scr then load_le16 p.header 10 else st.cur_scr_sof;
    }

-- The stream and the time of a run of `uvc_parse_frames`.
pub record Source : Type 0 where
  pub vid : ℕ
  pub product : ℕ
  pub busnum : ℕ
  pub devnum : ℕ
  pub ep : ℕ
  pub now : ℕ
  pub task : Task
  pub pools : ℕ → Pool

-- The record of a frame.
unfoldable pub frame_record : Source → StreamState → Bool → UvcFrameEvent
frame_record src st eof = record {
  hdr = record { kind = evt_uvc_frame; size = size_of_uvc_frame_event; ts_ns = src.now };
  bytes = st.cur_bytes;
  packets = st.cur_packets;
  err_packets = st.cur_err_packets;
  duration_ns = u32 (sub_u64 src.now st.frame_start_ts);
  interval_ns = if st.last_frame_end_ts == 0 then 0 else u32 (sub_u64 src.now st.last_frame_end_ts);
  pts = st.cur_pts;
  scr_stc = st.cur_scr_stc;
  scr_sof = st.cur_scr_sof;
  vid = src.vid;
  product = src.product;
  busnum = src.busnum;
  devnum = src.devnum;
  ep = src.ep;
  errored = flag_of (not eof || st.saw_err);
  eof = flag_of eof;
  fid = st.cur_fid;
  comm = src.task.comm;
}

-- The reset at the end of `uvc_emit_frame`.
unfoldable pub next_frame : ℕ → StreamState → StreamState
next_frame now st = record st {
  last_frame_end_ts = now;
  cur_bytes = 0;
  cur_packets = 0;
  cur_err_packets = 0;
  cur_pts = 0;
  cur_scr_stc = 0;
  cur_scr_sof = 0;
  saw_err = false;
  active = false;
}

-- `struct uvc_stream_state init = {}`.
abbrev pub zero_stream : StreamState
zero_stream = record {
  frame_start_ts = 0;
  last_frame_end_ts = 0;
  cur_bytes = 0;
  cur_packets = 0;
  cur_err_packets = 0;
  cur_pts = 0;
  cur_scr_stc = 0;
  cur_scr_sof = 0;
  cur_fid = 0;
  have_fid = false;
  saw_err = false;
  active = false;
}

-- `key` of `uvc_parse_frames`.
abbrev pub stream_key : ℕ → ℕ → ℕ → ℕ
stream_key bus devnum ep = bit_or (bit_or (bus * 2 ^ 16) (devnum * 2 ^ 8)) ep

-- What `uvc_parse_frames` reads of the URB's device and pipe, with the ids that the filter wrote.
abbrev pub source_of : Task → (ℕ → Pool) → VideoUrb → ℕ → ℕ × ℕ → Source
source_of task pools urb now (vid, pid) = record {
  vid = vid;
  product = pid;
  busnum = u16 urb.dev.busnum;
  devnum = u16 urb.dev.devnum;
  ep = urb.pipe / 2 ^ 15 % 16;
  now = now;
  task = task;
  pools = pools;
}

abbrev pub urb_key : VideoUrb → ℕ
urb_key urb = stream_key (u16 urb.dev.busnum) (u16 urb.dev.devnum) (urb.pipe / 2 ^ 15 % 16)

-- `i >= npkts`, with `npkts` signed.
abbrev pub is_packet : ℕ → ℤ → Bool
is_packet i n = ltb_ℤ (pos i) n

module _ (C : KeyMap StreamCorr) (D : KeyMap ℕ) (Q : KeyMap QState) where
  -- `uvc_emit_frame`.
  unfoldable pub emit_frame : Source → Bool → World C D Q × StreamState → World C D Q × StreamState
  emit_frame src eof (w, st) =
      let w1 = record w { output = w.output ++ (frame (frame_record src st eof) ∷ []) } in
      let w2 =
        note_wire_frame C D Q src.busnum src.devnum src.vid src.product st.cur_bytes src.now w1 in
      (
        check_starvation C D Q src.task src.pools src.busnum src.devnum src.now w2,
        next_frame src.now st,
      )

  -- `if (!st->active) ... else if (st->have_fid && fid != st->cur_fid) ...`.
  unfoldable pub open_frame : Source → ℕ → World C D Q × StreamState → World C D Q × StreamState
  open_frame src fid (w, st) =
      if not st.active
      then (w, start_frame fid src.now st)
      else if st.have_fid && not (fid == st.cur_fid)
      then (let (w', st') = emit_frame src false (w, st) in (w', start_frame fid src.now st'))
      else (w, st)

  -- The rest of the loop's body, for a payload packet.
  unfoldable pub take_packet :
      Source → Packet → World C D Q × StreamState → World C D Q × StreamState
  take_packet src p s =
      let (w, st) = open_frame src (packet_fid p) s in
      if packet_eof p then emit_frame src true (w, add_packet p st) else (w, add_packet p st)

  -- The body of the loop for the descriptor `i`.
  unfoldable pub parse_packet :
      Source → VideoUrb → ℕ → World C D Q × StreamState → World C D Q × StreamState
  parse_packet src urb i (w, st) = elim (urb.desc i) [
    | none ↦ (w, st)
    | some d ↦ elim (payload_of urb d) [
      | none ↦ (w, note_status d st)
      | some p ↦ take_packet src p (w, note_status d st)
    ]
  ]

  -- The loop from the descriptor `i` on, with the rounds left.
  unfoldable pub parse_from :
      Source → VideoUrb → ℕ → ℕ → World C D Q × StreamState → World C D Q × StreamState
  parse_from src urb i zero s = s
  parse_from src urb i (suc n) s =
      let rest = parse_from src urb (suc i) n (parse_packet src urb i s) in
      if is_packet i urb.number_of_packets then rest else s

  module _ (S : KeyMap StreamState) where
    -- The state of a stream, which is made if there is room.
    unfoldable pub stream_state : S.Map → ℕ → Option StreamState × S.Map
    stream_state m key = elim (S.lookup m key) [
      | some st ↦ (some st, m)
      | none ↦ (S.lookup (S.update m key zero_stream) key, S.update m key zero_stream)
    ]

    -- `uvc_parse_frames` on a stream whose state was found; what the loop writes through `st` is
    -- stored at its end.
    unfoldable pub parse_stream :
        Source → VideoUrb → ℕ → Option StreamState → S.Map → World C D Q → S.Map × World C D Q
    parse_stream src urb key none m w = (m, w)
    parse_stream src urb key (some st) m w =
        let (w', st') = parse_from src urb 0 max_isoc_pkts (w, st) in
        if urb.has_buffer then (S.update m key st', w') else (m, w)

    -- `uvc_parse_frames`.
    unfoldable pub parse_frames :
        UvcConfig → Task → (ℕ → Pool) → VideoUrb → ℕ → S.Map → World C D Q → S.Map × World C D Q
    parse_frames cfg task pools urb now m w =
        elim (dev_match urb.dev cfg.filter_vid cfg.filter_pid) [
          | none ↦ (m, w)
          | some ids ↦
              let (found, m') = stream_state m (urb_key urb) in
              parse_stream (source_of task pools urb now ids) urb (urb_key urb) found m' w
        ]
