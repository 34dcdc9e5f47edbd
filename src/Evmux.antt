-- ===== src/Evmux.antt =====
-- src/evmux.c: the consumer of the events map, over perf buffers and over a ring buffer.
mod Drain
mod Tests
use usbtrace.Common.{
  ℕ, ◌+◌, Bool, true, false, List, [], ◌∷◌, ◌++◌, Option, none, some, if◌then◌else◌, ◌||◌, length,
  leb, ◌==◌,
}
use usbtrace.Common.Int.{ℤ, pos, negsuc, ltb_ℤ}
use usbtrace.Common.Word.{u32, sign_32, ◌==ℤ◌}

-- `EVMUX_MAX_SRCS`.
abbrev pub max_srcs : ℕ
max_srcs = 16

-- `-EINTR`, `-EAGAIN`, `-EINVAL` and `-ENOSPC`.
abbrev pub eintr : ℤ
eintr = negsuc 3

abbrev pub eagain : ℤ
eagain = negsuc 10

abbrev pub einval : ℤ
einval = negsuc 21

abbrev pub enospc : ℤ
enospc = negsuc 27

-- An error that a poll goes on after.
unfoldable pub is_transient : ℤ → Bool
is_transient err = err ==ℤ eintr || err ==ℤ eagain

-- `struct usbtrace_evmux` of the perf transport: the buffers by number, `npb` of them.
pub record PerfMux : Type 0 where
  pub pbs : List ℕ
  pub samples : ℕ

-- What libbpf and epoll do for a map that is added: its descriptor, the buffer or `-errno`, and the
-- outcome of `epoll_ctl` for each buffer of a CPU that is online.
pub record AddOutcome : Type 0 where
  pub fd : ℤ
  pub buffer : Option ℕ
  pub new_errno : ℤ
  pub registered : List ℤ

-- The loop over the CPUs: the first error.
unfoldable pub register_cpus : List ℤ → ℤ
register_cpus [] = pos 0
register_cpus (r ∷ rs) = let rest = register_cpus rs in if r ==ℤ pos 0 then rest else r

-- `usbtrace_evmux_add` of the perf transport, with a mux and a map that are not NULL.
unfoldable pub perf_add : PerfMux → AddOutcome → ℤ × PerfMux
perf_add m o =
    if ltb_ℤ o.fd (pos 0)
    then (einval, m)
    else if leb max_srcs (length m.pbs)
    then (enospc, m)
    else elim o.buffer [
      | none ↦ (o.new_errno, m)
      | some pb ↦
          if register_cpus o.registered ==ℤ pos 0
          then (pos 0, record m { pbs = m.pbs ++ (pb ∷ []) })
          else (register_cpus o.registered, m)
    ]

-- The loop of `usbtrace_evmux_poll` over the buffers: `consume` gives the samples that the callback
-- has seen and the result. The samples at the end, and the error that ended the loop.
unfoldable pub drain : (ℕ → ℕ × ℤ) → List ℕ → ℕ → ℕ × Option ℤ
drain consume [] samples = (samples, none)
drain consume (pb ∷ pbs) samples =
    let (seen, err) = consume pb in
    let samples' = u32 (samples + seen) in
    let rest = drain consume pbs samples' in
    if ltb_ℤ err (pos 0) then (if is_transient err then rest else (samples', some err)) else rest

-- What the poll returns after the loop.
abbrev pub poll_result : PerfMux → ℕ × Option ℤ → ℤ × PerfMux
poll_result m (samples, none) = (sign_32 samples, record m { samples = samples })
poll_result m (samples, some e) = (e, record m { samples = samples })

-- `usbtrace_evmux_poll` of the perf transport; `ready` is what `epoll_wait` returns, or `-errno`.
unfoldable pub perf_poll : PerfMux → ℤ → (ℕ → ℕ × ℤ) → ℤ × PerfMux
perf_poll m ready consume =
    if length m.pbs == 0
    then (einval, m)
    else if ltb_ℤ ready (pos 0)
    then (ready, record m { samples = 0 })
    else poll_result m (drain consume m.pbs 0)

-- `struct usbtrace_evmux` of the ring buffer transport: the maps that joined the ring buffer.
pub record RingMux : Type 0 where
  pub maps : Option (List ℤ)

-- `usbtrace_evmux_add` of the ring buffer transport: `joined` is what `ring_buffer__add` returns for
-- a map that joins, `new_errno` the `-errno` of a `ring_buffer__new` that fails.
unfoldable pub ring_add : RingMux → ℤ → ℤ → Option ℤ → ℤ × RingMux
ring_add m fd joined new_errno = if ltb_ℤ fd (pos 0) then (einval, m) else elim m.maps [
  | some fds ↦
      (joined, if joined ==ℤ pos 0 then (record m { maps = some (fds ++ (fd ∷ [])) }) else m)
  | none ↦ elim new_errno [ some e ↦ (e, m) | none ↦ (pos 0, record m { maps = some (fd ∷ []) }) ]
]

-- `usbtrace_evmux_poll` of the ring buffer transport, with what `ring_buffer__poll` returns.
unfoldable pub ring_poll : RingMux → ℤ → ℤ
ring_poll m polled = elim m.maps [ none ↦ einval | some fds ↦ polled ]
