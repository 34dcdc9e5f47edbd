-- ===== src/ClassStream.antt =====
-- src/class_stream.c: the health tally of a class-traffic module.
pub mod Tally
mod Tests
use usbtrace.Common.{
  ℕ, zero, suc, ◌+◌, ◌%◌, ◌^◌, Bool, true, false, List, [], ◌∷◌, ◌++◌, if◌then◌else◌, ◌&&◌, ◌||◌,
  not, ltb, ◌==◌, ◌≡◌, refl, sym, ap, ◌∙◌, arith, length, codes,
}
use usbtrace.Common.Int.{ℤ, pos, ltb_ℤ}
use usbtrace.Common.Word.{u64, ◌==ℤ◌}
use usbtrace.Records.{
  ClassUrbEvent, evt_class, size_of_hdr, size_of_class_urb_event, class_video, class_audio,
  class_hid, class_storage,
}

-- `usbtrace_class_str`.
unfoldable pub class_str : ℕ → List ℕ
class_str klass =
    if klass == class_video
    then codes "video"
    else if klass == class_audio
    then codes "audio"
    else if klass == class_hid
    then codes "hid"
    else if klass == class_storage
    then codes "storage"
    else codes "class"

-- `xfer_str`.
unfoldable pub xfer_str : ℕ → List ℕ
xfer_str t =
    if t == 0
    then codes "ISOC"
    else if t == 1
    then codes "INT"
    else if t == 2
    then codes "CTRL"
    else if t == 3
    then codes "BULK"
    else codes "?"

-- `struct class_stats`.
pub record ClassStats : Type 0 where
  pub urbs : ℕ
  pub isoc_err : ℕ
  pub status_err : ℕ
  pub bytes : ℕ

-- `struct class_stream_ctx`, and the events that `print_event` has printed, oldest first.
pub record StreamCtx : Type 0 where
  pub all : Bool
  pub stats : ClassStats
  pub printed : List ClassUrbEvent

-- The signals of trouble: packet errors, and a failed transfer.
abbrev pub has_isoc_err : ClassUrbEvent → Bool
has_isoc_err e = ltb_ℤ (pos 0) e.error_count

abbrev pub has_status_err : ClassUrbEvent → Bool
has_status_err e = not (e.status ==ℤ pos 0)

-- What `class_stream_on_event` adds to the tally.
unfoldable pub tally_urb : ClassStats → ClassUrbEvent → ClassStats
tally_urb s e = record {
  urbs = u64 (s.urbs + 1);
  isoc_err = if has_isoc_err e then u64 (s.isoc_err + 1) else s.isoc_err;
  status_err = if has_status_err e then u64 (s.status_err + 1) else s.status_err;
  bytes = u64 (s.bytes + e.actual_length);
}

-- `class_stream_on_event`, for the `len` bytes at `data`.
unfoldable pub stream_on_event : StreamCtx → ClassUrbEvent → ℕ → StreamCtx
unfolding tally_urb
stream_on_event c e len =
    if ltb len size_of_hdr
    then c
    else if not (e.hdr.kind == evt_class) || ltb len size_of_class_urb_event
    then c
    else record c {
      stats = tally_urb c.stats e;
      printed =
          if c.all || (has_status_err e || has_isoc_err e)
          then c.printed ++ (e ∷ [])
          else c.printed;
    }

-- The loop of the event buffer over records that are class events of full length.
unfoldable pub stream_all : StreamCtx → List ClassUrbEvent → StreamCtx
stream_all c [] = c
stream_all c (e ∷ es) = stream_all (stream_on_event c e size_of_class_urb_event) es
