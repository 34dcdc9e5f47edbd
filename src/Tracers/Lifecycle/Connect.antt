-- ===== src/Tracers/Lifecycle/Connect.antt =====
-- A connect is reported by the thread that created the device, once the creation has succeeded.
use usbtrace.Common.{ℕ, ◌≡◌, refl, arith, false, List, Option, none, some}
use usbtrace.Common.Int.{pos, ltb_ℤ}
use usbtrace.Records.{LifecycleEvent}
use usbtrace.Bpf.{Task, KeyMap}
use usbtrace.Tracers.{DevConfig, KernelMemory, kret_int}
use usbtrace.Tracers.Pending.{Probe, pending, map_after, lookup-pending, lookup-unstash_self}
use usbtrace.Tracers.Lifecycle.{emit_connect, emit_lifecycle, connect, on_new_device_exit}

emit_connect-some :
    (cfg : DevConfig) (k : KernelMemory) (task : Task) (now rc : ℕ) (o : Option ℕ)
    (e : LifecycleEvent)
    → emit_connect cfg k task now rc o ≡ some e
    → (dev : ℕ) × ((o ≡ some dev)
        × ((ltb_ℤ (kret_int rc) (pos 0) ≡ false)
            × (emit_lifecycle cfg k task now dev connect ≡ some e)))
unfolding emit_connect
emit_connect-some cfg k task now rc none e h = ground (arith, h)
emit_connect-some cfg k task now rc (some dev) e h = (dev, (refl, ground (arith, h)))

module _ (K : KeyMap ℕ) where
  open K use {lookup}

  -- After any probes, with a map that may fill up, a record of the return probe of
  -- `usb_new_device` is the connect record of the device that this thread last entered the function
  -- with and has not returned from, the function did not return an error, and the thread has no
  -- entry left.
  pub on_new_device_exit-connects :
      (cfg : DevConfig) (ps : List Probe) (k : KernelMemory) (task : Task) (now rc : ℕ)
      (e : LifecycleEvent)
      → (on_new_device_exit K cfg k task now rc (map_after K ps)).1 ≡ some e
      → ((dev : ℕ) × ((pending ps task.pid_tgid ≡ some dev)
            × ((ltb_ℤ (kret_int rc) (pos 0) ≡ false)
                × (emit_lifecycle cfg k task now dev connect ≡ some e))))
        × (lookup (on_new_device_exit K cfg k task now rc (map_after K ps)).0 task.pid_tgid ≡ none)
  unfolding on_new_device_exit
  on_new_device_exit-connects cfg ps k task now rc e h =
      let (dev, (found, (ok, sent))) =
        emit_connect-some cfg k task now rc (lookup (map_after K ps) task.pid_tgid) e h in
      (
        (dev, (lookup-pending K ps task.pid_tgid dev found, (ok, sent))),
        lookup-unstash_self K (map_after K ps) task.pid_tgid,
      )
