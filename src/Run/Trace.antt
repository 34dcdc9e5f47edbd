-- ===== src/Run/Trace.antt =====
-- The exit code of `usbtrace_run`, and the order of what it does.
use usbtrace.Common.{
  ℕ, ◌+◌, ◌≡◌, refl, ◌∙◌, ap, ap₂, arith, Bool, true, false, List, [], ◌∷◌, ◌++◌, if◌then◌else◌,
  ◌&&◌, ◌||◌, not, ◌==◌, Bool-cases, inl, inr,
}
use usbtrace.Common.Int.{ℤ, pos, negsuc, ltb_ℤ}
use usbtrace.Common.Word.{◌==ℤ◌}
use usbtrace.Evmux.{is_transient}
use usbtrace.Run.{
  Setup, Action, loaded, attached, new_mux, added, started, polled, stopped, freed, poll_loop,
  call_if, run_polls, run_module,
}

-- An error that ends the loop.
abbrev pub is_fatal : ℤ → Bool
is_fatal r = ltb_ℤ r (pos 0) && not (is_transient r)

-- The polls up to the first that fails for good, which is among them.
abbrev pub polls_made : List ℤ → List Action
polls_made [] = []
polls_made (r ∷ rs) = let rest = polls_made rs in if is_fatal r then polled ∷ [] else polled ∷ rest

abbrev pub any_fatal : List ℤ → Bool
any_fatal [] = false
any_fatal (r ∷ rs) = is_fatal r || any_fatal rs

-- The exit code that an `err` gives.
abbrev pub code_of : ℤ → ℤ
code_of err =
    let last : ℤ = if ltb_ℤ (pos 0) err then pos 0 else err in
    if last ==ℤ pos 0 then pos 0 else pos 1

poll_loop-polls_made : (err : ℤ) (rs : List ℤ) → (poll_loop err rs).1 ≡ polls_made rs
unfolding poll_loop
poll_loop-polls_made err [] = refl
poll_loop-polls_made err (r ∷ rs) =
    let ih = poll_loop-polls_made (if ltb_ℤ r (pos 0) then pos 0 else r) rs in ground (arith, ih)

code_of_fine : (err : ℤ) → ltb_ℤ err (pos 0) ≡ false → code_of err ≡ pos 0
code_of_fine (pos n) h = ground arith
code_of_fine (negsuc n) h = ground (arith, h)

code_of_failed : (err : ℤ) → ltb_ℤ err (pos 0) ≡ true → code_of err ≡ pos 1
code_of_failed (pos n) h = ground (arith, h)
code_of_failed (negsuc n) h = ground arith

poll_loop-code_of :
    (err : ℤ) (rs : List ℤ)
    → ltb_ℤ err (pos 0) ≡ false
    → code_of (poll_loop err rs).0 ≡ (if any_fatal rs then pos 1 else pos 0)
unfolding poll_loop
poll_loop-code_of err [] h = code_of_fine err h
poll_loop-code_of err (r ∷ rs) h = elim (Bool-cases (ltb_ℤ r (pos 0))) [
  | inl n ↦ elim (Bool-cases (is_transient r)) [
    | inl t ↦ rw (n, t) (poll_loop-code_of (pos 0) rs refl)
    | inr t ↦ rw (n, t) (code_of_failed r n)
  ]
  | inr n ↦ rw n (poll_loop-code_of r rs n)
]

abbrev pub set_up : List Action
set_up = loaded ∷ attached ∷ new_mux ∷ added ∷ []

run_polls_lem :
    (s : Setup) (polls : List ℤ)
    → run_polls s polls ≡ (
      if any_fatal polls then pos 1 else pos 0,
      call_if s.has_start started ++ polls_made polls ++ call_if s.has_stop stopped ++ (freed ∷ []),
    )
unfolding run_polls
run_polls_lem s polls =
    ap₂
      (λ c acts.
        (c, call_if s.has_start started ++ acts ++ call_if s.has_stop stopped ++ (freed ∷ [])))
      (poll_loop-code_of (pos 0) polls refl) (poll_loop-polls_made (pos 0) polls)

-- When the set-up succeeds, the module is started, polled until a poll fails for good or it is told
-- to stop, stopped and freed, in this order; an interrupted poll does not end it. The exit code is 1
-- exactly if a poll failed for good.
pub run_module-trace :
    (s : Setup) (polls : List ℤ)
    → (s.enabled == 0) ≡ false
    → s.load ≡ pos 0
    → s.attach ≡ pos 0
    → s.has_mux ≡ true
    → s.add ≡ pos 0
    → run_module s polls ≡ (
      if any_fatal polls then pos 1 else pos 0,
      set_up
          ++ (call_if s.has_start started
              ++ polls_made polls
              ++ call_if s.has_stop stopped
              ++ (freed ∷ [])),
    )
unfolding run_module run_polls
run_module-trace s polls e l a m d =
    rw (e, l, a, m, d) (ap (λ r. (r.0, set_up ++ r.1)) (run_polls_lem s polls))

abbrev pub is_new_mux : Action → Bool
is_new_mux new_mux = true
is_new_mux _ = false

abbrev pub is_freed : Action → Bool
is_freed freed = true
is_freed _ = false

abbrev pub count : (Action → Bool) → List Action → ℕ
count p [] = 0
count p (a ∷ acts) = (if p a then 1 else 0) + count p acts

count-append : (p : Action → Bool) (a b : List Action) → count p (a ++ b) ≡ count p a + count p b
count-append p [] b = omega arith
count-append p (x ∷ a) b = omega (arith, count-append p a b)

count-polls_made :
    (p : Action → Bool) (polls : List ℤ) → p polled ≡ false → count p (polls_made polls) ≡ 0
count-polls_made p [] h = refl
count-polls_made p (r ∷ rs) h = let ih = count-polls_made p rs h in ground (arith, ih, h)

count-call_if :
    (p : Action → Bool) (b : Bool) (a : Action) → p a ≡ false → count p (call_if b a) ≡ 0
count-call_if p b a h = ground (arith, h)

count-run_polls :
    (p : Action → Bool) (s : Setup) (polls : List ℤ)
    → p started ≡ false
    → p polled ≡ false
    → p stopped ≡ false
    → count p (run_polls s polls).1 ≡ (if p freed then 1 else 0)
count-run_polls p s polls h k l =
    let c = count-call_if p s.has_start started h in
    let d = count-polls_made p polls k in
    let e = count-call_if p s.has_stop stopped l in
    ap (λ r. count p r.1) (run_polls_lem s polls) ∙ grind (arith, count-append, c, d, e)

-- However `usbtrace_run` ends, a mux that it allocated has been freed, and none twice.
pub run_module-frees :
    (s : Setup) (polls : List ℤ)
    → count is_freed (run_module s polls).1 ≡ count is_new_mux (run_module s polls).1
unfolding run_module
run_module-frees s polls =
    let f = count-run_polls is_freed s polls refl refl refl in
    let n = count-run_polls is_new_mux s polls refl refl refl in ground (arith, f, n)
