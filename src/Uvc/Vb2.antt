-- ===== src/Uvc/Vb2.antt =====
-- uvc.bpf.c: the wire frames that vb2 buffers are matched with, and the records of the vb2 layer.
use Prim.Native.Nat.{bit_or}
use usbtrace.Common.{
  ℕ, ◌+◌, ◌*◌, ◌%◌, ◌^◌, Bool, true, false, List, [], ◌∷◌, ◌++◌, Option, none, some, if◌then◌else◌,
  ◌&&◌, ◌||◌, not, ◌==◌, ltb,
}
use usbtrace.Common.Word.{u16, u32, sub_u64}
use usbtrace.Records.{UvcVb2Event, evt_uvc_vb2, size_of_uvc_vb2_event}
use usbtrace.Bpf.{KeyMap, Task}
use usbtrace.Uvc.State.{
  UvcConfig, QState, StreamCorr, Pool, Vb2Buffer, UvcRecord, vb2, vb2_min_bytes, vb2_max_bytes,
  vb2_starve_cooldown_ns, wire_vb2_max_ns,
}

-- The `op` of a vb2 record, and the states of a vb2 buffer.
abbrev pub op_done : ℕ
op_done = 0

abbrev pub op_starved : ℕ
op_starved = 4

abbrev pub buf_state_done : ℕ
buf_state_done = 5

-- `vb2_seq_gap`.
unfoldable pub vb2_seq_gap : ℕ → ℕ → Bool
vb2_seq_gap last cur =
    if cur == last
    then false
    else (let expected : ℕ = if last == 0xffffffff then 0 else last + 1 in not (cur == expected))

abbrev pub flag_of : Bool → ℕ
flag_of b = if b then 1 else 0

-- `((__u32)bus << 16) | devnum`.
abbrev pub dev_key : ℕ → ℕ → ℕ
dev_key bus devnum = bit_or (bus * 2 ^ 16) devnum

-- `struct uvc_vb2_event ve = {}` with the fields that `uvc_vb2_submit` sets from its arguments.
unfoldable pub vb2_record :
    Pool → Option Vb2Buffer → ℕ → ℕ → Bool → ℕ → ℕ → Bool → ℕ → ℕ → UvcVb2Event
vb2_record p b op state starved now seq gap interval wire_ns = record {
  hdr = record { kind = evt_uvc_vb2; size = size_of_uvc_vb2_event; ts_ns = now };
  sequence = seq;
  bytesused = elim b [ none ↦ 0 | some x ↦ x.bytesused ];
  vb2_timestamp = elim b [ none ↦ 0 | some x ↦ x.timestamp ];
  state = state;
  interval_ns = interval;
  buf_index = elim b [ none ↦ 0 | some x ↦ x.index % 2 ^ 8 ];
  seq_gap = flag_of gap;
  vb2_op = op;
  starved = flag_of starved;
  num_buffers = u16 p.num_buffers;
  queued = u16 p.queued_count;
  drv_owned = u16 p.owned_by_drv_count;
  wire_to_vb2_ns = wire_ns;
  vid = 0;
  product = 0;
  busnum = 0;
  devnum = 0;
  comm = [];
}

-- What the programs share: the maps but `streams`, and the records on the event buffer.
pub record World (C : KeyMap StreamCorr) (D : KeyMap ℕ) (Q : KeyMap QState) : Type 0 where
  pub stream_corr : C.Map
  pub vb2_dev_queue : D.Map
  pub vb2_queues : Q.Map
  pub output : List UvcRecord

-- `struct vb2_qstate init = {}`, `struct stream_corr init = {}`.
abbrev pub zero_qstate : QState
zero_qstate = record {
  done_count = 0;
  last_done_ns = 0;
  last_starve_ns = 0;
  last_sequence = 0;
  have_last_seq = false;
}

module _ (C : KeyMap StreamCorr) (D : KeyMap ℕ) (Q : KeyMap QState) where
  -- `uvc_wire_to_vb2_ns`.
  unfoldable pub wire_to_vb2_ns : World C D Q → ℕ → ℕ → ℕ
  wire_to_vb2_ns w now bytesused = elim (C.lookup w.stream_corr 0) [
    | none ↦ 0
    | some c ↦
        if c.last_wire_done_ns == 0 || bytesused == 0
        then 0
        else if not (bytesused == c.last_wire_bytes)
        then 0
        else if ltb wire_vb2_max_ns (sub_u64 now c.last_wire_done_ns)
        then 0
        else u32 (sub_u64 now c.last_wire_done_ns)
  ]

  -- `uvc_corr_store`: a map that is full keeps what it has.
  unfoldable pub corr_store : ℕ → StreamCorr → World C D Q → World C D Q
  corr_store key c w =
      let m = C.update w.stream_corr key (record {
        last_wire_done_ns = 0;
        last_wire_bytes = 0;
        vid = 0;
        product = 0;
        busnum = 0;
        devnum = 0;
      }) in
      elim (C.lookup m key) [
        | none ↦ record w { stream_corr = m }
        | some _ ↦ record w { stream_corr = C.update m key c }
      ]

  -- `uvc_note_wire_frame`.
  unfoldable pub note_wire_frame : ℕ → ℕ → ℕ → ℕ → ℕ → ℕ → World C D Q → World C D Q
  note_wire_frame bus devnum vid pid bytes now w =
      let c : StreamCorr = record {
        last_wire_done_ns = now;
        last_wire_bytes = bytes;
        vid = vid;
        product = pid;
        busnum = bus;
        devnum = devnum;
      } in
      corr_store (dev_key bus devnum) c (corr_store 0 c w)

  -- `uvc_vb2_qstate`: the state of a queue, which is made if there is room.
  unfoldable pub vb2_qstate : ℕ → World C D Q → Option QState × World C D Q
  vb2_qstate key w = elim (Q.lookup w.vb2_queues key) [
    | some st ↦ (some st, w)
    | none ↦
        let m = Q.update w.vb2_queues key zero_qstate in
        (Q.lookup m key, record w { vb2_queues = m })
  ]

  -- `uvc_vb2_fill_device`.
  unfoldable pub fill_device : World C D Q → ℕ → UvcVb2Event → UvcVb2Event
  fill_device w now ve = elim (C.lookup w.stream_corr 0) [
    | none ↦ ve
    | some c ↦
        if c.last_wire_done_ns == 0
        then ve
        else if ltb wire_vb2_max_ns (sub_u64 now c.last_wire_done_ns)
        then ve
        else (record ve { vid = c.vid; product = c.product; busnum = c.busnum; devnum = c.devnum })
  ]

  -- `uvc_vb2_bind_dev`.
  unfoldable pub bind_dev : ℕ → ℕ → ℕ → World C D Q → World C D Q
  bind_dev q bus dev w =
      if bus == 0 && dev == 0
      then w
      else (record w { vb2_dev_queue = D.update w.vb2_dev_queue (dev_key bus dev) q })

  -- `uvc_vb2_submit`, from `uvc_vb2_fill_device` on, for a record of the queue `q`.
  unfoldable pub vb2_submit : Task → ℕ → UvcVb2Event → World C D Q → World C D Q
  vb2_submit task q ve w =
      let e = fill_device w ve.hdr.ts_ns ve in
      let w' = if e.busnum == 0 && e.devnum == 0 then w else bind_dev q e.busnum e.devnum w in
      record w' { output = w'.output ++ (vb2 (record e { comm = task.comm }) ∷ []) }

  -- `uvc_check_starvation`; `pools` reads the memory of a queue.
  unfoldable pub check_starvation : Task → (ℕ → Pool) → ℕ → ℕ → ℕ → World C D Q → World C D Q
  check_starvation task pools bus dev now w =
      if bus == 0 && dev == 0 then w else elim (D.lookup w.vb2_dev_queue (dev_key bus dev)) [
        | none ↦ w
        | some q ↦
            if q == 0
            then w
            else if ltb 0 (u16 (pools q).queued_count)
            then w
            else (let (st, w') = vb2_qstate q w in
                elim st [
                  | none ↦ w'
                  | some s ↦
                      if not (s.last_starve_ns == 0)
                        && ltb (sub_u64 now s.last_starve_ns) vb2_starve_cooldown_ns
                      then w'
                      else vb2_submit task q
                          (vb2_record (pools q) none op_starved 0 true now 0 false 0 0)
                          (record w' {
                            vb2_queues =
                                Q.update w'.vb2_queues q (record s { last_starve_ns = now });
                          })
                ])
      ]

  -- The sequence number of a finished buffer, whether it leaves a gap, and the state of the queue.
  abbrev pub done_sequence : Vb2Buffer → QState → ℕ × Bool × QState
  done_sequence b s = elim b.sequence [
    | none ↦ (s.done_count, false, s)
    | some seq ↦ (
      seq,
      if s.have_last_seq then vb2_seq_gap s.last_sequence seq else false,
      record s { last_sequence = seq; have_last_seq = true },
    )
  ]

  -- `uvc_emit_vb2_done`.
  unfoldable pub emit_vb2_done : Task → (ℕ → Pool) → Vb2Buffer → ℕ → ℕ → World C D Q → World C D Q
  emit_vb2_done task pools b state now w =
      if not (state == buf_state_done)
      then w
      else if not (b.bytesused == 0)
          && (ltb b.bytesused vb2_min_bytes || ltb vb2_max_bytes b.bytesused)
      then w
      else if b.queue == 0
      then w
      else (let (st, w') = vb2_qstate b.queue w in
          elim st [
            | none ↦ w'
            | some s ↦
                let (seq, gap, s') =
                  done_sequence b (record s { done_count = u32 (s.done_count + 1) }) in
                let interval : ℕ =
                  if s'.last_done_ns == 0 then 0 else u32 (sub_u64 now s'.last_done_ns) in
                vb2_submit task b.queue
                  (vb2_record (pools b.queue) (some b) op_done state false now seq gap interval
                    (wire_to_vb2_ns w' now b.bytesused))
                  (record w' {
                    vb2_queues = Q.update w'.vb2_queues b.queue (record s' { last_done_ns = now });
                  })
          ])

  -- `vb2_is_capture`.
  abbrev pub is_capture : Vb2Buffer → Bool
  is_capture b = b.type == 1 || b.type == 9

  -- `uvc_emit_vb2_xact`, on the queue `q` of the tracepoint.
  unfoldable pub emit_vb2_xact :
      Task → (ℕ → Pool) → ℕ → Vb2Buffer → ℕ → ℕ → ℕ → World C D Q → World C D Q
  emit_vb2_xact task pools q b op state now w =
      if q == 0
      then w
      else if not (is_capture b)
      then w
      else vb2_submit task q (vb2_record (pools q) (some b) op state false now 0 false 0 0) w

  -- `uvc_vb2_raw_done`; `none` is a NULL buffer.
  unfoldable pub vb2_raw_done :
      UvcConfig → Task → (ℕ → Pool) → Option Vb2Buffer → ℕ → World C D Q → World C D Q
  vb2_raw_done cfg task pools none now w = w
  vb2_raw_done cfg task pools (some b) now w =
      let w' = emit_vb2_done task pools b buf_state_done now w in if cfg.no_vb2 then w else w'

  -- `uvc_vb2_raw_qvb`.
  unfoldable pub vb2_raw_qvb :
      UvcConfig → Task → (ℕ → Pool) → ℕ → Option Vb2Buffer → ℕ → ℕ → ℕ → World C D Q → World C D Q
  vb2_raw_qvb cfg task pools q none op state now w = w
  vb2_raw_qvb cfg task pools q (some b) op state now w =
      let w' = emit_vb2_xact task pools q b op state now w in if cfg.no_vb2 then w else w'
