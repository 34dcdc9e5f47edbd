-- ===== src/UvcReport/Summary.antt =====
-- src/modules/uvc/uvc.c: the options, and the sections of the summary.
use usbtrace.Common.{
  ℕ, Bool, true, List, [], ◌∷◌, ◌++◌, Option, none, some, if◌then◌else◌, ◌&&◌, not, ◌==◌, ltb,
}
use usbtrace.Common.Int.{ℤ, pos, negsuc}
use usbtrace.Common.Word.{u32}
use usbtrace.Cli.{Filter, filter_getopt}
use usbtrace.UvcReport.{FrameStats, Vb2Stats, DrvStats, UvcCtx}

-- The options of the module; `all` is `g_ctx.all`.
pub record UvcOptions : Type 0 where
  pub filter : Filter
  pub all : Bool
  pub no_frames : Bool
  pub no_vb2 : Bool
  pub fps_target : ℕ

-- The `switch` of `uvc_parse_args`, after the test of `usbtrace_filter_getopt`.
pub data UvcOption : Type 0 where
  filter_option all_option frames_option vb2_option fps_option help_option other_option : UvcOption

unfoldable pub uvc_option : Bool → ℕ → UvcOption
uvc_option consumed c =
    if consumed
    then filter_option
    else if c == b'a'
    then all_option
    else if c == b'F'
    then frames_option
    else if c == b'B'
    then vb2_option
    else if c == b'f'
    then fps_option
    else if c == b'h'
    then help_option
    else other_option

-- `strtoul` of the C library, at base 0, is a parameter.
module _ (strtoul : List ℕ → ℕ) where
  -- The loop of `uvc_parse_args` over the options that `getopt_long` reports, each with its
  -- argument.
  unfoldable pub uvc_parse_args : List (ℕ × List ℕ) → UvcOptions → ℤ × UvcOptions
  uvc_parse_args [] o = (pos 0, o)
  uvc_parse_args ((c, arg) ∷ rest) o =
      let (consumed, f) = filter_getopt strtoul c arg o.filter in
      elim (uvc_option consumed c) [
        | filter_option ↦ uvc_parse_args rest (record o { filter = f })
        | all_option ↦ uvc_parse_args rest (record o { all = true })
        | frames_option ↦ uvc_parse_args rest (record o { no_frames = true })
        | vb2_option ↦ uvc_parse_args rest (record o { no_vb2 = true })
        | fps_option ↦ uvc_parse_args rest (record o { fps_target = u32 (strtoul arg) })
        | help_option ↦ (pos 1, o)
        | other_option ↦ (negsuc 0, o)
      ]

-- The notes at the end of `uvc_gap_summary`.
pub data GapNote : Type 0 where
  slow_app driver_drops usb_fine after_usb : GapNote

-- The chain of `if`s on the gaps. `drop_hook` is `uvc_drop_hook_active`.
unfoldable pub gap_note : Bool → FrameStats → Vb2Stats → DrvStats → List GapNote
gap_note drop_hook f v d =
    if drop_hook && (not (d.dropped == 0) && d.dropped == v.seq_gaps)
    then driver_drops ∷ []
    else if not (v.seq_gaps == 0) && f.errored == 0
    then usb_fine ∷ []
    else if ltb f.errored v.seq_gaps
    then after_usb ∷ []
    else []

unfoldable pub gap_notes : Bool → FrameStats → Vb2Stats → DrvStats → List GapNote
gap_notes drop_hook f v d =
    (if v.starvations == 0 then [] else slow_app ∷ []) ++ gap_note drop_hook f v d

-- The sections of the summary, as text: `drops` is `none` where the hook is unavailable.
pub data Section : Type 0 where
  class_section : Section
  frame_section : FrameStats → Section
  drv_section : ℕ → Option DrvStats → Section
  vb2_section : Vb2Stats → Section
  gap_section : List GapNote → Section

abbrev section_if : Bool → Section → List Section
section_if b s = if b then s ∷ [] else []

-- `uvc_on_stop`.
unfoldable pub uvc_on_stop : Bool → Bool → Bool → UvcCtx → List Section
uvc_on_stop no_frames no_vb2 drop_hook c =
    class_section ∷ section_if (not no_frames) (frame_section c.frame_stats)
    ++ (drv_section c.drv_stats.received (if drop_hook then some c.drv_stats else none) ∷ [])
    ++ section_if (not no_vb2) (vb2_section c.vb2_stats)
    ++ section_if (not no_frames && not no_vb2)
        (gap_section (gap_notes drop_hook c.frame_stats c.vb2_stats c.drv_stats))
