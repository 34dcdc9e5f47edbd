-- ===== src/Evmux/Tests.antt =====
-- Three buffers, of which the second is interrupted.
use usbtrace.Common.{ℕ, ◌≡◌, refl, [], ◌∷◌, some, if◌then◌else◌, ◌==◌}
use usbtrace.Common.Int.{ℤ, pos, negsuc}
use usbtrace.Evmux.{PerfMux, AddOutcome, eintr, perf_poll, is_transient}
use usbtrace.Evmux.Drain.{perf_poll-drains}

abbrev three : PerfMux
three = record { pbs = 10 ∷ 11 ∷ 12 ∷ []; samples = 99 }

abbrev interrupted : ℕ → ℕ × ℤ
interrupted pb = if pb == 11 then (2, eintr) else (3, pos 0)

perf_poll-drains_example :
    perf_poll three (pos 1) interrupted ≡ (pos 8, record { pbs = 10 ∷ 11 ∷ 12 ∷ []; samples = 8 })
unfolding is_transient
perf_poll-drains_example = perf_poll-drains three (pos 1) interrupted refl refl refl

abbrev fourth : AddOutcome
fourth = record {
  fd = pos 7;
  buffer = some 13;
  new_errno = negsuc 11;
  registered = pos 0 ∷ pos 0 ∷ [];
}
