-- ===== src/Diag/Expand/Tests.antt =====
-- A rule's text for a device, in a large and in a small buffer.
use usbtrace.Common.{ℕ, ◌-◌, ◌≡◌, refl, arith, List, some, none, codes, text_eq, take}
use usbtrace.Common.Int.{pos, negsuc}
use usbtrace.Diag.Window.{DevWin, fresh_win}
use usbtrace.Diag.Expand.{expand, expand_loop, placeholder, split_close, value_of, template}
use usbtrace.Diag.Expand.Substitute.{substituted, expand_lem}
use usbtrace.Diag.Tests.{camera}

abbrev window : DevWin
window = record (fresh_win camera) { vid = 0x046d; product = 0x082d }

abbrev advice : List ℕ
advice = codes "{vid}:{pid} failed {count}x in {ms}"

full_text :
    expand (some advice) window (negsuc 11) (pos 5000) none 256
    ≡ some (codes "046d:082d failed -12x in {ms}")
unfolding expand expand_loop placeholder split_close value_of text_eq fresh_win
full_text = refl

cut_text : expand (some advice) window (pos 3) (pos 5000) none 8 ≡ some (codes "046d:08")
unfolding expand expand_loop placeholder split_close value_of text_eq fresh_win
cut_text = refl

expand_lem_example :
    expand (some advice) window (pos 3) (pos 5000) none 8
    ≡ some (
        take
          (8 - 1)
          (substituted (value_of window (pos 3) (pos 5000) none) 0 (template (some advice))))
expand_lem_example = expand_lem (some advice) window (pos 3) (pos 5000) none 8 (omega arith)
