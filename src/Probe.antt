-- ===== src/Probe.antt =====
-- src/probe.c: which hooks this kernel has.
mod FailOpen
mod Tests
use usbtrace.Common.{
  ℕ, suc, ◌-◌, ◌+◌, Bool, true, false, List, [], ◌∷◌, ◌++◌, Option, none, some, if◌then◌else◌, ◌&&◌,
  ◌||◌, not, ◌==◌, ltb, leb, codes, text_eq, length, take, drop,
}
use usbtrace.Common.Int.{ℤ}

-- The verdict of a probe: 1, 0 and -1.
pub data Verdict : Type 0 where
  present absent unknown : Verdict

-- A file of names: its lines, each as its tokens, or `none` if it cannot be read.
abbrev pub File : Type 0
File = Option (List (List (List ℕ)))

-- The kernel's files that the probe reads: the symbol tables, whether a path is there, and the
-- entries of a directory.
pub record Kernel : Type 0 where
  pub kallsyms : File
  pub filter_functions : List File  -- one for each of TRACEFS
  pub events_dirs : List Bool  -- access(TRACEFS[i]/events)
  pub event_exists : ℕ → List ℕ → List ℕ → Bool  -- access(TRACEFS[i]/events/subsys/event)
  pub subsystems : ℕ → Option (List (List ℕ))  -- the names in TRACEFS[i]/events

-- The token of a line at an index.
abbrev pub token : ℕ → List (List ℕ) → Option (List ℕ)
token i [] = none
token i (t ∷ ts) = let rest = token (i - 1) ts in if i == 0 then some t else rest

abbrev pub is_token : List ℕ → Option (List ℕ) → Bool
is_token name none = false
is_token name (some t) = text_eq t name

-- The lines of `symbol_in_file`.
unfoldable pub any_line : ℕ → List ℕ → List (List (List ℕ)) → Bool
any_line field name [] = false
any_line field name (l ∷ ls) = is_token name (token field l) || any_line field name ls

-- `symbol_in_file`.
unfoldable pub symbol_in_file : File → List ℕ → ℕ → Verdict
symbol_in_file none name field = unknown
symbol_in_file (some ls) name field = if any_line field name ls then present else absent

abbrev pub is_absent : Verdict → Bool
is_absent absent = true
is_absent _ = false

-- What is left to say after a source that did not have the name: `readable ? 0 : -1`.
abbrev pub no_hit : Bool → Verdict
no_hit readable = if readable then absent else unknown

-- The loop of `usbtrace_kfunc_available` over TRACEFS.
unfoldable pub kfunc_from : List ℕ → Bool → List File → Verdict
kfunc_from name readable [] = no_hit readable
kfunc_from name readable (f ∷ fs) =
    let r = symbol_in_file f name 0 in
    let rest = kfunc_from name (readable || is_absent r) fs in
    elim r [ present ↦ present | _ ↦ rest ]

-- `usbtrace_kfunc_available`.
unfoldable pub kfunc_available : Kernel → List ℕ → Verdict
kfunc_available k [] = unknown
kfunc_available k (c ∷ cs) =
    let r = symbol_in_file k.kallsyms (c ∷ cs) 2 in
    let rest = kfunc_from (c ∷ cs) (is_absent r) k.filter_functions in
    elim r [ present ↦ present | _ ↦ rest ]

-- The loop of `usbtrace_tracepoint_available` from TRACEFS[i] on.
unfoldable pub tracepoint_from : Kernel → List ℕ → List ℕ → ℕ → Bool → List Bool → Verdict
tracepoint_from k subsys event i have_base [] = no_hit have_base
tracepoint_from k subsys event i have_base (d ∷ ds) =
    let rest = tracepoint_from k subsys event (suc i) (have_base || d) ds in
    if k.event_exists i subsys event then present else rest

-- `usbtrace_tracepoint_available`.
unfoldable pub tracepoint_available : Kernel → List ℕ → List ℕ → Verdict
tracepoint_available k subsys event = tracepoint_from k subsys event 0 false k.events_dirs

-- `de->d_name[0] == '.'`.
abbrev pub is_hidden : List ℕ → Bool
is_hidden [] = false
is_hidden (c ∷ cs) = c == b'.'

-- The loop over the entries of an events directory.
unfoldable pub any_subsystem : Kernel → ℕ → List ℕ → List (List ℕ) → Bool
any_subsystem k i event [] = false
any_subsystem k i event (d ∷ ds) =
    (not (is_hidden d) && k.event_exists i d event) || any_subsystem k i event ds

-- The loop of `usbtrace_tracepoint_event_available`, with the rounds left.
unfoldable pub event_from : Kernel → List ℕ → ℕ → Bool → List Bool → Verdict
event_from k event i have_base [] = no_hit have_base
event_from k event i have_base (d ∷ ds) = elim (k.subsystems i) [
  | none ↦ event_from k event (suc i) have_base ds
  | some names ↦
      let rest = event_from k event (suc i) true ds in
      if any_subsystem k i event names then present else rest
]

-- `usbtrace_tracepoint_event_available`.
unfoldable pub event_available : Kernel → List ℕ → Verdict
event_available k [] = unknown
event_available k (c ∷ cs) = event_from k (c ∷ cs) 0 false k.events_dirs

-- `strchr(s, '/')`: what stands before the slash, and after it.
unfoldable pub split_slash : List ℕ → Option (List ℕ × List ℕ)
split_slash [] = none
split_slash (c ∷ cs) =
    let rest = split_slash cs in
    if c == b'/' then some ([], cs) else elim rest [ none ↦ none | some (a, b) ↦ some (c ∷ a, b) ]

abbrev pub one_of : List ℕ → List (List ℕ) → Bool
one_of s [] = false
one_of s (t ∷ ts) = text_eq s t || one_of s ts

-- The kinds of the section names that `sec_available` knows.
abbrev pub function_kinds : List (List ℕ)
function_kinds =
    codes "kprobe" ∷ codes "kretprobe" ∷ codes "fentry" ∷ codes "fexit" ∷ codes "fmod_ret" ∷ []

abbrev pub tracepoint_kinds : List (List ℕ)
tracepoint_kinds = codes "tracepoint" ∷ codes "tp" ∷ []

abbrev pub raw_kinds : List (List ℕ)
raw_kinds = codes "raw_tracepoint" ∷ codes "raw_tp" ∷ codes "tp_btf" ∷ []

-- The case of a tracepoint, of which `sb` holds the subsystem in 64 bytes.
abbrev pub subsystem_verdict : Kernel → Option (List ℕ × List ℕ) → Verdict
subsystem_verdict k none = unknown
subsystem_verdict k (some (subsys, event)) =
    if leb 64 (length subsys) then unknown else tracepoint_available k subsys event

abbrev pub kind_verdict : Kernel → Option (List ℕ × List ℕ) → Verdict
kind_verdict k none = unknown
kind_verdict k (some (kind, target)) =
    if one_of kind function_kinds
    then kfunc_available k target
    else if one_of kind tracepoint_kinds
    then subsystem_verdict k (split_slash target)
    else if one_of kind raw_kinds
    then event_available k target
    else unknown

-- `sec_available`. A prefix that ends in a slash, as `strncmp` compares it, is the text before the
-- first slash.
unfoldable pub sec_available : Kernel → List ℕ → Verdict
sec_available k sec = kind_verdict k (split_slash sec)

-- `usbtrace_autoload_filter`: how many programs stay, and which are loaded.
unfoldable pub autoload_filter : Kernel → List (List ℕ) → ℕ × List Bool
autoload_filter k [] = (0, [])
autoload_filter k (sec ∷ secs) =
    let (enabled, flags) = autoload_filter k secs in
    if is_absent (sec_available k sec)
    then (enabled, false ∷ flags)
    else (enabled + 1, true ∷ flags)
