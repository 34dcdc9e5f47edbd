-- ===== src/Cli/Tests.antt =====
-- Escaping a short text with a quote and a control byte.
use usbtrace.Common.{ℕ, ◌+◌, ◌*◌, ◌<◌, ◌≤◌, ◌≡◌, List, [], ◌∷◌, some, take, length, arith}
use usbtrace.Cli.{json_escape}
use usbtrace.Cli.Escape.{plain, unescape_from, taken, json_escape_lem}

abbrev quoted : List ℕ
quoted = b'"' ∷ b'k' ∷ 1 ∷ []

json_escape_lem_example :
    (out : List ℕ) × (json_escape quoted 20 ≡ some out)
    × (length out < 20)
    × (unescape_from plain out ≡ some (take (taken 20 0 quoted) quoted))
    × (6 * length quoted + 2 ≤ 20 → unescape_from plain out ≡ some quoted)
json_escape_lem_example = json_escape_lem quoted 20 (omega arith) (omega arith)
