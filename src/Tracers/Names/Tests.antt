-- ===== src/Tracers/Names/Tests.antt =====
-- A state and a kind.
use usbtrace.Common.{◌≡◌, arith, some}
use usbtrace.Common.Int.{pos}
use usbtrace.Diag.Labels.{kind_str}
use usbtrace.Diag.Rules.Symbols.{resolve_name}
use usbtrace.Tracers.Names.{state_str}
use usbtrace.Tracers.Names.Resolve.{labels-resolve}

labels-resolve_example :
    (resolve_name (state_str 5) ≡ some (pos 5)) × (resolve_name (kind_str 4) ≡ some (pos 4))
labels-resolve_example = labels-resolve 5 4 (omega arith) (omega arith) (omega arith)
