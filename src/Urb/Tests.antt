-- ===== src/Urb/Tests.antt =====
-- A control transfer and a bulk transfer of one device, on a map that is never full.
use usbtrace.Common.{
  ◌+◌, ◌*◌, ◌^◌, arith, if◌then◌else◌, ◌==◌, codes, ℕ, ◌≡◌, ◌⊎◌, refl, false, List, [], ◌∷◌, some,
  none,
}
use usbtrace.Common.Int.{pos}
use usbtrace.Common.Word.{sub_u64}
use usbtrace.Bpf.{KernelDev, Task, dev_match, roomy_map, set_key_self}
use usbtrace.Urb.{UrbConfig, KernelUrb, on_giveback, giveback_record}
use usbtrace.Urb.Names.{
  link_state_name, link_state_name-mod_4, request_name, std_req_name, desc_type_name,
}
use usbtrace.Urb.Setup.{setup_le16, setup_text, format_setup}
use usbtrace.Urb.Fits.{format_setup-whole}
use usbtrace.Urb.Pairing.{
  UrbCall, submit, giveback, pending, map_after, on_giveback_pairs, lookup-map_after,
}

abbrev drive : KernelDev
drive = record {
  vid = 0x0781;
  product = 0x5567;
  busnum = 1;
  devnum = 4;
  state = 7;
  speed = 3;
  portnum = 2;
  devpath = [];
}

abbrev bulk_in : KernelUrb
bulk_in = record {
  address = 0xffff8880;
  dev = drive;
  pipe = 0xc0008480;
  transfer_buffer_length = 512;
  actual_length = 512;
  setup_packet = none;
}

abbrev bulk_out : KernelUrb
bulk_out = record bulk_in { address = 0xffff9990; pipe = 0xc0010400 }

abbrev worker : Task
worker = record { pid_tgid = 0x700000007; tgid = 7; comm = [] }

abbrev drive_only : UrbConfig
drive_only = record { filter_vid = 0x0781; filter_pid = 0; emit_submit = false; ctrl_only = false }

abbrev calls : List UrbCall
calls =
    submit worker bulk_out 900
    ∷ submit worker bulk_in 700
    ∷ giveback worker bulk_in (pos 0) 600
    ∷ submit worker bulk_in 500
    ∷ []

on_giveback_pairs_example :
    (lat : ℕ) × (((on_giveback roomy_map drive_only worker bulk_in
          (pos 0)
          950
          (map_after roomy_map drive_only calls)).1
        ≡ some (giveback_record bulk_in 0x0781 0x5567 worker (pos 0) 950 lat))
      × (((lat ≡ 0)
            ⊎ ((t : ℕ) × ((pending drive_only calls 0xffff8880 ≡ some t) × (lat ≡ sub_u64 950 t))))
          × (roomy_map.lookup
                (on_giveback roomy_map drive_only worker bulk_in
                  (pos 0)
                  950
                  (map_after roomy_map drive_only calls)).0
                0xffff8880
              ≡ none)))
unfolding dev_match
on_giveback_pairs_example =
    on_giveback_pairs roomy_map drive_only calls worker bulk_in (pos 0) 950 refl

lookup-map_after_example :
    roomy_map.lookup (map_after roomy_map drive_only calls) 0xffff8880 ≡ some 700
unfolding dev_match
lookup-map_after_example = lookup-map_after roomy_map drive_only calls 0xffff8880 set_key_self

-- GET_DESCRIPTOR of the device.
abbrev get_device : ℕ → ℕ
get_device i =
    if i == 0 then 0x80 else if i == 1 then 6 else if i == 3 then 1 else if i == 6 then 18 else 0

format_setup-whole_example : format_setup get_device 96 ≡ codes "GET_DESCRIPTOR DEVICE"
unfolding setup_text setup_le16 request_name std_req_name desc_type_name
format_setup-whole_example = format_setup-whole get_device

-- Disabled, on port 3.
link_state_name-mod_4_example : link_state_name (3 + 2 ^ 8 * 4) ≡ some (codes "U0")
unfolding link_state_name
link_state_name-mod_4_example = link_state_name-mod_4 3 4 (omega arith)
