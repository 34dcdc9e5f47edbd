-- ===== src/Run.antt =====
-- src/run.c: a module's life, from the skeleton to the last poll.
mod Trace
mod Tests
use usbtrace.Common.{ℕ, Bool, true, false, List, [], ◌∷◌, ◌++◌, if◌then◌else◌, not, ◌==◌}
use usbtrace.Common.Int.{ℤ, pos, ltb_ℤ}
use usbtrace.Common.Word.{◌==ℤ◌}
use usbtrace.Evmux.{is_transient}

-- What the calls of `usbtrace_run` return: the programs that are left, the error codes, whether a
-- mux was allocated; and whether the module has the two callbacks.
pub record Setup : Type 0 where
  pub enabled : ℕ
  pub load : ℤ
  pub attach : ℤ
  pub has_mux : Bool
  pub add : ℤ
  pub has_start : Bool
  pub has_stop : Bool

-- What `usbtrace_run` does to the world.
pub data Action : Type 0 where
  loaded attached new_mux added started polled stopped freed : Action

-- The loop: the last `err`, and the polls. The list holds what each poll returns; at its end the
-- signal handler has cleared `*running`.
unfoldable pub poll_loop : ℤ → List ℤ → ℤ × List Action
poll_loop err [] = (err, [])
poll_loop err (r ∷ rs) =
    let (e, acts) = poll_loop (if ltb_ℤ r (pos 0) then pos 0 else r) rs in
    if ltb_ℤ r (pos 0)
    then (if is_transient r then (e, polled ∷ acts) else (r, polled ∷ []))
    else (e, polled ∷ acts)

-- `if (r->on_start) r->on_start()` and the like.
abbrev pub call_if : Bool → Action → List Action
call_if b a = if b then a ∷ [] else []

-- From the loop on.
unfoldable pub run_polls : Setup → List ℤ → ℤ × List Action
run_polls s polls =
    let (err, acts) = poll_loop (pos 0) polls in
    let last : ℤ = if ltb_ℤ (pos 0) err then pos 0 else err in
    (
      if last ==ℤ pos 0 then pos 0 else pos 1,
      call_if s.has_start started ++ acts ++ call_if s.has_stop stopped ++ (freed ∷ []),
    )

-- `usbtrace_run`: the exit code, and the actions.
unfoldable pub run_module : Setup → List ℤ → ℤ × List Action
run_module s polls =
    if s.enabled == 0
    then (pos 1, [])
    else if not (s.load ==ℤ pos 0)
    then (pos 1, loaded ∷ [])
    else if not (s.attach ==ℤ pos 0)
    then (pos 1, loaded ∷ attached ∷ [])
    else if not s.has_mux
    then (pos 1, loaded ∷ attached ∷ [])
    else if not (s.add ==ℤ pos 0)
    then (pos 1, loaded ∷ attached ∷ new_mux ∷ added ∷ freed ∷ [])
    else (let (code, acts) = run_polls s polls in
        (code, (loaded ∷ attached ∷ new_mux ∷ added ∷ []) ++ acts))
