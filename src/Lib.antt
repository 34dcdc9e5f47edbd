-- ===== src/Lib.antt =====
-- usbtrace: a model of the USB tracer, of its BPF programs and its user space, and what is proved.
--
-- The BPF programs of the tracing modules put records on an event buffer. A module's callback reads
-- each record; the diag module feeds them all, normalized, to a rule engine that looks back over a
-- window of recent events for each device, reports findings when an event triggers a rule whose
-- conditions are met, and checks deadline rules on a periodic tick.
--
-- Files and sources:
--   Common           shared helpers: tests, lists, C arrays by index, byte texts, machine words,
--                    signed integers; no part of the program.
--   Records          include/usbtrace/{common,class,uvc}.h and src/modules/*/*.h: the records of the
--                    event buffer, one record for each struct.
--   Cli              src/usbtrace_cli.c: json_escape, filter_getopt, filter_parse, speed_str.
--   Registry         src/module.c: register_module, find_module over the chain as a list.
--   ClassStream      src/class_stream.c: the tally of class_stream_on_event.
--   Hid              src/modules/hid/hid.c: the report-rate meter (slot_get, slot_note_len,
--                    slot_note_interval, rate_flush_window, rate_on_in).
--   Evmux            src/evmux.c: usbtrace_evmux_add and usbtrace_evmux_poll, of both transports.
--   Probe            src/probe.c: which hooks the kernel has, and usbtrace_autoload_filter.
--   Run              src/run.c: usbtrace_run.
--   Dispatch         src/main.c: main, from the global options to the module that runs.
--   Bpf              what the BPF programs share: filter.bpf.h, USBTRACE_EVENT_OUTPUT of
--                    include/usbtrace/events.bpf.h, and the kernel's hash maps.
--   ClassUrb         include/usbtrace/class_urb.bpf.h: usbtrace_class_urb_emit.
--   Tracers          include/usbtrace/pt_regs.bpf.h, and what the four programs below share: the
--                    kernel's memory, and in Tracers.Pending the maps from entry to return.
--   Tracers.Enum     src/modules/enum/enum.bpf.c: on_set_state, and stash and pop_emit for each step.
--   Tracers.Lifecycle  src/modules/lifecycle/lifecycle.bpf.c.
--   Tracers.Power    src/modules/power/power.bpf.c.
--   Tracers.Hub      src/modules/hub/hub.bpf.c.
--   Tracers.Names    the names that src/modules/{enum,lifecycle,power,hub}/*.c print.
--   Options          urb_parse_args, hid_parse_args and diag_parse_args of src/modules/*/*.c.
--   Urb              src/modules/urb/urb.bpf.c: on_submit, on_giveback.
--   Urb.Setup        src/modules/urb/urb.c: format_setup, with its names in Urb.Names.
--   Uvc              src/modules/uvc/uvc.bpf.c: uvc_parse_frames and uvc_emit_frame in Uvc.Parse, the
--                    vb2 programs in Uvc.Vb2, their state in Uvc.State, on_video_complete in Uvc.Complete,
--                    the programs on uvcvideo in Uvc.Driver.
--   UvcReport        src/modules/uvc/uvc.c: uvc_on_event with its handlers and tallies; uvc_parse_args
--                    and uvc_on_stop in UvcReport.Summary.
--   Diag.Event       src/modules/diag/diag.h: struct diag_event and the correlation key.
--   Diag.Rule        src/modules/diag/engine.{h,c}: the rules, and matching of one event.
--   Diag.Window      engine.c: win_get, win_push, win_at; the event ring and the device table.
--   Diag.Eval        engine.c: eval_when and cooldown_ok.
--   Diag.Engine      engine.c: diag_engine_ingest, diag_engine_tick, emit, dev_reset_enum.
--   Diag.Expand      engine.c: expand. Diag.Labels: sev_str, kind_str and the like.
--   Diag.Rules       src/modules/diag/rules.c: the loader, from a libyaml document to rules.
--   Diag.Normalize   src/modules/diag/diag.c: normalize and on_event.
--   Diag.Session     src/modules/diag/diag.c: diag_run.
-- The modules below a component's file hold its theorems; a module Tests holds runs on small inputs.
--
-- How the code is represented. Unsigned fields are numbers, with each wrap of a stored sum or
-- difference written out; `long` is 64 bits, as on the 64-bit targets. Static variables and structs
-- are records, an array with its count is a list, an array indexed by the program is a function of
-- the index whose accesses are proved to be in range. A pointer that may be NULL is an option. What
-- the program prints is a list of the values that it prints, without the formats. Loops are
-- structural recursions, so no fuel is needed, but for two: `%u` and `%ld`, whose ten and twenty
-- digits hold any `unsigned` and any `long`; and the loop of expand, with one round more than the
-- template has bytes.
-- The clock is read through an argument. A BPF program is a function of its maps and of what it
-- reads of the kernel, a map behind an interface with the laws of the kernel's hash maps, which may
-- be full; a run is one program at a time, on one CPU. The record of a program is the one that it
-- outputs: the event buffer may drop it where it has no room. ClassUrb.Session says for each record
-- whether there was room; elsewhere a theorem on what programs record is about the records as they
-- are output, and a theorem on what a callback does about the records that it is given.
--
-- Parameters: `strtol` and `strtoul` of the C library, libyaml's document (nodes by number) and the
-- outcome of `calloc`, what `getopt_long` reports, the kernel's hash maps and the
-- files and the memory that the probe and the BPF programs read, what libbpf and epoll return, and
-- for main the functions of a module.
--
-- Not modelled: the printf formats, the inside of the BPF skeletons, programs that run at the same time
-- on several CPUs, and the kernel.
pub mod Common
pub mod Records
pub mod Cli
pub mod Registry
pub mod ClassStream
pub mod ClassUrb
pub mod Hid
pub mod Diag
pub mod Bpf
pub mod Tracers
pub mod Urb
pub mod Uvc
pub mod UvcReport
pub mod Dispatch
pub mod Evmux
pub mod Options
pub mod Probe
pub mod Run
