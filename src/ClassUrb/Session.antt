-- ===== src/ClassUrb/Session.antt =====
-- From the completions in the kernel to the tally of a session, over an event buffer that may have
-- no room for a record.
use usbtrace.Common.{
  ℕ, ◌+◌, ◌≡◌, refl, ◌∙◌, ap, arith, Bool, true, List, [], ◌∷◌, ◌++◌, Option, none, some, is_some,
  not, ◌&&◌, if◌then◌else◌, Option-cases, Bool-cases, inl, inr,
}
use usbtrace.Common.Word.{u32, u64}
use usbtrace.Records.{ClassUrbEvent}
use usbtrace.Bpf.{Task, dev_match, event_output}
use usbtrace.ClassStream.{StreamCtx, stream_all}
use usbtrace.ClassStream.Tally.{count_if, sum_bytes, IsSmall, stream_all-Adds}
use usbtrace.ClassUrb.{ClassConfig, CompletedUrb, class_urb_emit}

-- A completion: who runs, the URB, the time, and whether the event buffer has room for a record.
pub record Completion : Type 0 where
  pub task : Task
  pub urb : CompletedUrb
  pub now : ℕ
  pub has_room : Bool

abbrev pub outputs {ℓ} : {A : Type ℓ} → Bool → Option A → List A
outputs has_room none = []
outputs has_room (some e) = event_output has_room e

-- The records of the completions that reach the callback, in order.
unfoldable pub emitted : ClassConfig → ℕ → List Completion → List ClassUrbEvent
emitted cfg klass [] = []
emitted cfg klass (c ∷ cs) =
    outputs c.has_room (class_urb_emit cfg klass c.task (some c.urb) c.now) ++ emitted cfg klass cs

-- Does the filter let the device of the completion through?
abbrev pub passes : ClassConfig → Completion → Bool
passes cfg c = is_some (dev_match c.urb.dev cfg.filter_vid cfg.filter_pid)

abbrev pub is_kept : ClassConfig → Completion → Bool
is_kept cfg c = passes cfg c && c.has_room

abbrev pub is_lost : ClassConfig → Completion → Bool
is_lost cfg c = passes cfg c && not c.has_room

-- How many completions fit a test.
abbrev pub how_many : (Completion → Bool) → List Completion → ℕ
how_many p [] = 0
how_many p (c ∷ cs) = (if p c then 1 else 0) + how_many p cs

-- The bytes that they carry.
abbrev pub bytes_of : (Completion → Bool) → List Completion → ℕ
bytes_of p [] = 0
bytes_of p (c ∷ cs) = (if p c then u32 c.urb.actual_length else 0) + bytes_of p cs

-- One completion, then the rest.
emitted_count :
    (cfg : ClassConfig) (klass : ℕ) (c : Completion) (cs : List Completion)
    → count_if (λ _. true) (emitted cfg klass (c ∷ cs))
      ≡ (if is_kept cfg c then 1 else 0) + count_if (λ _. true) (emitted cfg klass cs)
unfolding emitted class_urb_emit event_output count_if
emitted_count cfg klass c cs =
    elim (Option-cases (dev_match c.urb.dev cfg.filter_vid cfg.filter_pid)) [
      | inl e ↦ rw (emitted, class_urb_emit, e) (omega arith)
      | inr (ids, e) ↦ elim (Bool-cases c.has_room) [
        | inl r ↦ rw (emitted, class_urb_emit, e, event_output, r)
        | inr r ↦ rw (emitted, class_urb_emit, e, event_output, r) (omega arith)
      ]
    ]

emitted_bytes :
    (cfg : ClassConfig) (klass : ℕ) (c : Completion) (cs : List Completion)
    → sum_bytes (emitted cfg klass (c ∷ cs))
      ≡ (if is_kept cfg c then u32 c.urb.actual_length else 0) + sum_bytes (emitted cfg klass cs)
unfolding emitted class_urb_emit event_output sum_bytes
emitted_bytes cfg klass c cs =
    elim (Option-cases (dev_match c.urb.dev cfg.filter_vid cfg.filter_pid)) [
      | inl e ↦ rw (emitted, class_urb_emit, e) (omega arith)
      | inr (ids, e) ↦ elim (Bool-cases c.has_room) [
        | inl r ↦ rw (emitted, class_urb_emit, e, event_output, r)
        | inr r ↦ rw (emitted, class_urb_emit, e, event_output, r) (omega arith)
      ]
    ]

count_if-emitted :
    (cfg : ClassConfig) (klass : ℕ) (cs : List Completion)
    → count_if (λ _. true) (emitted cfg klass cs) ≡ how_many (is_kept cfg) cs
unfolding emitted count_if
count_if-emitted cfg klass [] = refl
count_if-emitted cfg klass (c ∷ cs) =
    emitted_count cfg klass c cs
    ∙ ap (λ n. (if is_kept cfg c then 1 else 0) + n) (count_if-emitted cfg klass cs)

sum_bytes-emitted :
    (cfg : ClassConfig) (klass : ℕ) (cs : List Completion)
    → sum_bytes (emitted cfg klass cs) ≡ bytes_of (is_kept cfg) cs
unfolding emitted sum_bytes
sum_bytes-emitted cfg klass [] = refl
sum_bytes-emitted cfg klass (c ∷ cs) =
    emitted_bytes cfg klass c cs
    ∙ ap (λ n. (if is_kept cfg c then u32 c.urb.actual_length else 0) + n)
        (sum_bytes-emitted cfg klass cs)

kept_or_lost :
    (cfg : ClassConfig) (cs : List Completion)
    → how_many (is_kept cfg) cs + how_many (is_lost cfg) cs ≡ how_many (passes cfg) cs
kept_or_lost cfg [] = omega arith
kept_or_lost cfg (c ∷ cs) = ground (arith, kept_or_lost cfg cs)

-- A session of a class module tallies, with the bytes they carry and modulo 2^64, the completions
-- of the devices that its filter lets through whose record found room in the event buffer, and no
-- other. It falls short of all completions of these devices by exactly the records that were lost.
pub stream_all-emitted :
    (c : StreamCtx) (cfg : ClassConfig) (klass : ℕ) (cs : List Completion)
    → IsSmall c.stats
    → ((stream_all c (emitted cfg klass cs)).stats.urbs
        ≡ u64 (c.stats.urbs + how_many (is_kept cfg) cs))
      × ((stream_all c (emitted cfg klass cs)).stats.bytes
          ≡ u64 (c.stats.bytes + bytes_of (is_kept cfg) cs))
      × (how_many (is_kept cfg) cs + how_many (is_lost cfg) cs ≡ how_many (passes cfg) cs)
stream_all-emitted c cfg klass cs h =
    let adds = stream_all-Adds c (emitted cfg klass cs) h in
    (
      adds.urbs_added ∙ ap (λ n. u64 (c.stats.urbs + n)) (count_if-emitted cfg klass cs),
      adds.bytes_added ∙ ap (λ n. u64 (c.stats.bytes + n)) (sum_bytes-emitted cfg klass cs),
      kept_or_lost cfg cs,
    )
