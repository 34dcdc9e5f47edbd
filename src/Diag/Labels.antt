-- ===== src/Diag/Labels.antt =====
-- The names that the findings print (src/modules/diag/engine.c).
use usbtrace.Common.{ℕ, List, if◌then◌else◌, ◌==◌, codes}
use usbtrace.Records.{evt_hub}
use usbtrace.Diag.Rule.{Severity, sev_error, sev_warn, sev_info}

-- `sev_str`.
unfoldable pub sev_str : Severity → List ℕ
sev_str sev_error = codes "error"
sev_str sev_warn = codes "warn"
sev_str sev_info = codes "info"

-- `vb2_op_label`.
unfoldable pub vb2_op_label : ℕ → List ℕ
vb2_op_label op =
    if op == 1
    then codes "queue"
    else if op == 2
    then codes "qbuf"
    else if op == 3
    then codes "dqbuf"
    else if op == 4
    then codes "STARVE"
    else codes "done"

-- `power_action_str`.
unfoldable pub power_action_str : ℕ → List ℕ
power_action_str a =
    if a == 0
    then codes "autosuspend"
    else if a == 1
    then codes "autoresume"
    else if a == 2
    then codes "port_suspend"
    else if a == 3
    then codes "port_resume"
    else codes "?"

-- `kind_str`.
unfoldable pub kind_str : ℕ → List ℕ
kind_str k =
    if k == 1
    then codes "urb"
    else if k == 2
    then codes "enum"
    else if k == 3
    then codes "power"
    else if k == 4
    then codes "lifecycle"
    else if k == 5
    then codes "class"
    else if k == 6
    then codes "uvc_frame"
    else if k == 7
    then codes "uvc_vb2"
    else if k == evt_hub
    then codes "hub"
    else codes "?"
