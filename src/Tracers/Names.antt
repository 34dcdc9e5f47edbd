-- ===== src/Tracers/Names.antt =====
-- The names that the tracers of devices and ports print, in src/modules/{enum,lifecycle,power,hub}/*.c.
pub mod Resolve
mod Tests
use usbtrace.Common.{ℕ, List, if◌then◌else◌, ◌==◌, codes}

-- `state_str` of enum.c.
unfoldable pub state_str : ℕ → List ℕ
state_str s =
    if s == 0
    then codes "NOTATTACHED"
    else if s == 1
    then codes "ATTACHED"
    else if s == 2
    then codes "POWERED"
    else if s == 3
    then codes "RECONNECTING"
    else if s == 4
    then codes "UNAUTHED"
    else if s == 5
    then codes "DEFAULT"
    else if s == 6
    then codes "ADDRESS"
    else if s == 7
    then codes "CONFIGURED"
    else if s == 8
    then codes "SUSPENDED"
    else codes "?"

-- `step_str` of enum.c.
unfoldable pub step_str : ℕ → List ℕ
step_str s =
    if s == 1
    then codes "GET_DESCRIPTOR"
    else if s == 2
    then codes "SET_ADDRESS"
    else if s == 3
    then codes "SET_CONFIGURATION"
    else codes "STATE"

-- `action_str` of lifecycle.c, of power.c and of hub.c.
unfoldable pub lifecycle_action_str : ℕ → List ℕ
lifecycle_action_str a =
    if a == 0
    then codes "CONNECT"
    else if a == 1
    then codes "DISCONNECT"
    else if a == 2
    then codes "RESET"
    else codes "?"

unfoldable pub power_event_str : ℕ → List ℕ
power_event_str a =
    if a == 0
    then codes "AUTOSUSPEND"
    else if a == 1
    then codes "AUTORESUME"
    else if a == 2
    then codes "PORT_SUSPEND"
    else if a == 3
    then codes "PORT_RESUME"
    else codes "?"

unfoldable pub hub_action_str : ℕ → List ℕ
hub_action_str a =
    if a == 0
    then codes "RESET"
    else if a == 1
    then codes "DISABLE"
    else if a == 2
    then codes "POWER_OFF"
    else if a == 3
    then codes "POWER_ON"
    else if a == 4
    then codes "OVERCURRENT"
    else codes "?"
