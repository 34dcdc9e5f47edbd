-- ===== src/Evmux/Drain.antt =====
-- A poll of the perf transport drains its buffers.
use usbtrace.Common.{
  ℕ, ◌+◌, ◌^◌, ◌≤◌, ◌<◌, ◌≡◌, ◌⊎◌, ◌==◌, refl, ◌∙◌, ap, arith, Bool, true, false, List, [], ◌∷◌,
  ◌++◌, Option, none, some, if◌then◌else◌, ◌&&◌, ◌||◌, not, length, length-append, Option-cases,
  inl, inr,
}
use usbtrace.Common.Int.{ℤ, pos, ltb_ℤ}
use usbtrace.Common.Word.{u32, sign_32}
use usbtrace.Evmux.{
  PerfMux, AddOutcome, max_srcs, is_transient, perf_add, drain, perf_poll, poll_result,
}

-- The samples of all buffers.
abbrev pub seen_by : (ℕ → ℕ × ℤ) → List ℕ → ℕ
seen_by consume [] = 0
seen_by consume (pb ∷ pbs) = (consume pb).0 + seen_by consume pbs

-- No buffer fails with an error that ends the poll.
abbrev pub none_fails : (ℕ → ℕ × ℤ) → List ℕ → Bool
none_fails consume [] = true
none_fails consume (pb ∷ pbs) =
    (not (ltb_ℤ (consume pb).1 (pos 0)) || is_transient (consume pb).1) && none_fails consume pbs

and_fst : (a b : Bool) → (a && b) ≡ true → a ≡ true
and_fst a b h = ground (arith, h)

and_snd : (a b : Bool) → (a && b) ≡ true → b ≡ true
and_snd a b h = ground (arith, h)

drain_step :
    (neg transient : Bool) (rest : ℕ × Option ℤ) (s : ℕ) (e : ℤ)
    → (not neg || transient) ≡ true
    → (if neg then (if transient then rest else (s, some e)) else rest) ≡ rest
drain_step true true rest s e h = refl
drain_step true false rest s e h = ground (arith, h)
drain_step false t rest s e h = refl

drain-seen_by :
    (consume : ℕ → ℕ × ℤ) (pbs : List ℕ) (s : ℕ)
    → none_fails consume pbs ≡ true
    → s < 2 ^ 32
    → drain consume pbs s ≡ (u32 (s + seen_by consume pbs), none)
unfolding drain
drain-seen_by consume [] s h k =
    let same : s ≡ u32 (s + 0) = omega (arith, k) in ap (λ x. (x, none)) same
drain-seen_by consume (pb ∷ pbs) s h k =
    let fine = not (ltb_ℤ (consume pb).1 (pos 0)) || is_transient (consume pb).1 in
    let sum : u32 (u32 (s + (consume pb).0) + seen_by consume pbs)
        ≡ u32 (s + ((consume pb).0 + seen_by consume pbs)) =
      omega arith in
    drain_step (ltb_ℤ (consume pb).1 (pos 0)) (is_transient (consume pb).1) _ _ _
      (and_fst fine (none_fails consume pbs) h)
    ∙ (drain-seen_by consume pbs (u32 (s + (consume pb).0))
          (and_snd fine (none_fails consume pbs) h) (omega arith)
        ∙ ap (λ x. (x, none)) sum)

drain_all :
    (consume : ℕ → ℕ × ℤ) (pbs : List ℕ)
    → none_fails consume pbs ≡ true
    → drain consume pbs 0 ≡ (u32 (seen_by consume pbs), none)
drain_all consume pbs h =
    let same : u32 (0 + seen_by consume pbs) ≡ u32 (seen_by consume pbs) = omega arith in
    drain-seen_by consume pbs 0 h (omega arith) ∙ ap (λ x. (x, none)) same

-- A poll that epoll wakes and in which no buffer fails for good drains every buffer, also those
-- after one that was interrupted, and returns the number of samples (as an `int`).
pub perf_poll-drains :
    (m : PerfMux) (ready : ℤ) (consume : ℕ → ℕ × ℤ)
    → (length m.pbs == 0) ≡ false
    → ltb_ℤ ready (pos 0) ≡ false
    → none_fails consume m.pbs ≡ true
    → perf_poll m ready consume
      ≡ (sign_32 (u32 (seen_by consume m.pbs)), record m { samples = u32 (seen_by consume m.pbs) })
unfolding perf_poll
perf_poll-drains m ready consume n r h = rw (n, r) (ap (poll_result m) (drain_all consume m.pbs h))

add_one : (xs : List ℕ) (x : ℕ) → length (xs ++ (x ∷ [])) ≡ length xs + 1
add_one xs x = length-append xs (x ∷ [])

-- Adding a map keeps the number of buffers within the arrays, and a map that is refused leaves the
-- mux as it was.
pub perf_add-bounded :
    (m : PerfMux) (o : AddOutcome)
    → length m.pbs ≤ max_srcs
    → (length (perf_add m o).1.pbs ≤ max_srcs)
      × (((perf_add m o).1 ≡ m)
          ⊎ (((perf_add m o).0 ≡ pos 0) × (length (perf_add m o).1.pbs ≡ length m.pbs + 1)))
unfolding perf_add
perf_add-bounded m o h = elim (Option-cases o.buffer) [
  | inl e ↦ ground (arith, h, e)
  | inr (pb, e) ↦ ground (arith, h, e, add_one m.pbs pb)
]
