-- ===== src/Urb/Names.antt =====
-- urb.c: the names of requests, descriptors, features and link states.
use usbtrace.Common.{
  ℕ, ◌<◌, ◌≡◌, ◌+◌, ◌*◌, ap, arith, ◌/◌, ◌%◌, ◌^◌, List, Option, none, some, if◌then◌else◌, ◌&&◌,
  ◌||◌, ◌==◌, codes,
}

-- `std_req_name`.
unfoldable pub std_req_name : ℕ → Option (List ℕ)
std_req_name req =
    if req == 0x00
    then some (codes "GET_STATUS")
    else if req == 0x01
    then some (codes "CLEAR_FEATURE")
    else if req == 0x03
    then some (codes "SET_FEATURE")
    else if req == 0x05
    then some (codes "SET_ADDRESS")
    else if req == 0x06
    then some (codes "GET_DESCRIPTOR")
    else if req == 0x07
    then some (codes "SET_DESCRIPTOR")
    else if req == 0x08
    then some (codes "GET_CONFIGURATION")
    else if req == 0x09
    then some (codes "SET_CONFIGURATION")
    else if req == 0x0a
    then some (codes "GET_INTERFACE")
    else if req == 0x0b
    then some (codes "SET_INTERFACE")
    else if req == 0x0c
    then some (codes "SYNCH_FRAME")
    else if req == 0x30
    then some (codes "SET_SEL")
    else if req == 0x31
    then some (codes "SET_ISOCH_DELAY")
    else none

-- `desc_type_name`.
unfoldable pub desc_type_name : ℕ → Option (List ℕ)
desc_type_name dt =
    if dt == 1
    then some (codes "DEVICE")
    else if dt == 2
    then some (codes "CONFIG")
    else if dt == 3
    then some (codes "STRING")
    else if dt == 4
    then some (codes "INTERFACE")
    else if dt == 5
    then some (codes "ENDPOINT")
    else if dt == 6
    then some (codes "DEVICE_QUALIFIER")
    else if dt == 7
    then some (codes "OTHER_SPEED")
    else if dt == 8
    then some (codes "INTERFACE_POWER")
    else if dt == 9
    then some (codes "OTG")
    else if dt == 15
    then some (codes "BOS")
    else if dt == 33
    then some (codes "HID")
    else if dt == 34
    then some (codes "HID_REPORT")
    else none

-- The five switches of `feature_name`.
unfoldable pub device_feature : ℕ → Option (List ℕ)
device_feature value =
    if value == 1
    then some (codes "DEVICE_REMOTE_WAKEUP")
    else if value == 2
    then some (codes "TEST_MODE")
    else if value == 48
    then some (codes "U1_ENABLE")
    else if value == 49
    then some (codes "U2_ENABLE")
    else if value == 50
    then some (codes "LTM_ENABLE")
    else none

unfoldable pub port_feature : ℕ → Option (List ℕ)
port_feature value =
    if value == 1
    then some (codes "PORT_ENABLE")
    else if value == 2
    then some (codes "PORT_SUSPEND")
    else if value == 4
    then some (codes "PORT_RESET")
    else if value == 5
    then some (codes "PORT_LINK_STATE")
    else if value == 8
    then some (codes "PORT_POWER")
    else none

unfoldable pub hub_feature : ℕ → Option (List ℕ)
hub_feature value =
    if value == 0
    then some (codes "C_HUB_LOCAL_POWER")
    else if value == 1
    then some (codes "C_HUB_OVER_CURRENT")
    else none

-- `feature_name`.
unfoldable pub feature_name : ℕ → ℕ → ℕ → Option (List ℕ)
unfolding device_feature port_feature hub_feature
feature_name type recip value =
    if type == 0
    then (if recip == 0
        then device_feature value
        else if recip == 1 && value == 0
        then some (codes "FUNCTION_SUSPEND")
        else if recip == 2 && value == 0
        then some (codes "ENDPOINT_HALT")
        else none)
    else if type == 1 && recip == 3
    then port_feature value
    else if type == 1 && recip == 0
    then hub_feature value
    else none

-- The switch of `link_state_name`.
abbrev pub state_text : ℕ → Option (List ℕ)
state_text state =
    if state == 0
    then some (codes "U0")
    else if state == 1
    then some (codes "U1")
    else if state == 2
    then some (codes "U2")
    else if state == 3
    then some (codes "U3")
    else none

-- `link_state_name`.
unfoldable pub link_state_name : ℕ → Option (List ℕ)
link_state_name index = state_text (index / 2 ^ 8 % 4)

-- `rname` of `format_setup`.
unfoldable pub request_name : ℕ → ℕ → ℕ → Option (List ℕ)
unfolding std_req_name
request_name type recip req =
    if type == 1 && (req == 0x03 || req == 0x01)
    then some (if req == 0x03 then codes "SET_FEATURE" else codes "CLEAR_FEATURE")
    else if type == 1 && (req == 0x00 && recip == 3)
    then some (codes "GET_PORT_STATUS")
    else if type == 1 && (recip == 1 && req == 0x09)
    then some (codes "SET_REPORT")
    else if type == 1 && (recip == 1 && req == 0x0a)
    then some (codes "SET_IDLE")
    else if type == 2
    then some (codes "VENDOR")
    else if type == 0
    then std_req_name req
    else none

-- The name of a link state takes two of its bits: the states from 4 on (disabled, detecting, inactive,
-- and those after them) are shown under the names of the states 0 to 3.
pub link_state_name-mod_4 :
    (port state : ℕ)
    → port < 256
    → link_state_name (port + 2 ^ 8 * state) ≡ link_state_name (2 ^ 8 * (state % 4))
unfolding link_state_name
link_state_name-mod_4 port state h =
    let same : (port + 2 ^ 8 * state) / 2 ^ 8 % 4 ≡ 2 ^ 8 * (state % 4) / 2 ^ 8 % 4 =
      omega (arith, h) in
    ap state_text same
