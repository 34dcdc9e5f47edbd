-- ===== src/Probe/FailOpen.antt =====
-- A hook is skipped only on evidence that the kernel does not have it.
use usbtrace.Common.{
  ℕ, ◌≡◌, refl, sym, ◌∙◌, ap, arith, Bool, true, false, List, [], ◌∷◌, none, some, if◌then◌else◌,
  ◌||◌, not, Bool-cases, inl, inr,
}
use usbtrace.Probe.{
  Verdict, present, absent, File, Kernel, any_line, symbol_in_file, is_absent, no_hit, kfunc_from,
  kfunc_available, sec_available, autoload_filter, split_slash, one_of, function_kinds,
}

-- Does the file list the name? A file that cannot be read lists nothing.
abbrev pub lists : List ℕ → ℕ → File → Bool
lists name field none = false
lists name field (some ls) = any_line field name ls

abbrev pub can_read : File → Bool
can_read none = false
can_read (some ls) = true

abbrev pub any_lists : List ℕ → List File → Bool
any_lists name [] = false
any_lists name (f ∷ fs) = lists name 0 f || any_lists name fs

abbrev pub any_read : List File → Bool
any_read [] = false
any_read (f ∷ fs) = can_read f || any_read fs

-- The verdict over the union of the sources.
abbrev pub verdict_of : Bool → Bool → Verdict
verdict_of listed readable = if listed then present else no_hit readable

or_false : (a b : Bool) → (a || false || b) ≡ (a || b)
or_false a b = ground arith

or_false_end : (a : Bool) → (a || false) ≡ a
or_false_end a = ground arith

or_true : (a b : Bool) → (a || true || b) ≡ (a || true)
or_true a b = ground arith

file_lem :
    (b readable : Bool) (rest : Bool → Verdict) (l r : Bool)
    → ((c : Bool) → rest c ≡ verdict_of l (c || r))
    → (elim (if b then present else absent) [
      | present ↦ present
      | _ ↦ rest (readable || is_absent (if b then present else absent))
    ])
      ≡ verdict_of (b || l) (readable || true)
file_lem true readable rest l r h = refl
file_lem false readable rest l r h = h (readable || true) ∙ ap (verdict_of l) (or_true readable r)

-- One source, before the rest of them.
source_lem :
    (name : List ℕ) (field : ℕ) (readable : Bool) (f : File) (rest : Bool → Verdict) (l r : Bool)
    → ((b : Bool) → rest b ≡ verdict_of l (b || r))
    → (elim (symbol_in_file f name field) [
      | present ↦ present
      | _ ↦ rest (readable || is_absent (symbol_in_file f name field))
    ])
      ≡ verdict_of (lists name field f || l) (readable || (can_read f || r))
unfolding symbol_in_file
source_lem name field readable none rest l r h =
    h (readable || false) ∙ ap (verdict_of l) (or_false readable r)
source_lem name field readable (some ls) rest l r h =
    file_lem (any_line field name ls) readable rest l r h

kfunc_from_lem :
    (name : List ℕ) (readable : Bool) (fs : List File)
    → kfunc_from name readable fs ≡ verdict_of (any_lists name fs) (readable || any_read fs)
unfolding kfunc_from
kfunc_from_lem name readable [] = ap no_hit (sym (or_false_end readable))
kfunc_from_lem name readable (f ∷ fs) =
    source_lem name 0 readable f (λ b. kfunc_from name b fs) (any_lists name fs) (any_read fs)
      (λ b. kfunc_from_lem name b fs)

-- A name that is not empty is reported as present if kallsyms or one of the ftrace tables lists it,
-- else as absent if one of them could be read, else as unknown.
pub kfunc_available_lem :
    (k : Kernel) (c : ℕ) (cs : List ℕ)
    → kfunc_available k (c ∷ cs)
      ≡ verdict_of
          (lists (c ∷ cs) 2 k.kallsyms || any_lists (c ∷ cs) k.filter_functions)
          (can_read k.kallsyms || any_read k.filter_functions)
unfolding kfunc_available
kfunc_available_lem k c cs =
    source_lem (c ∷ cs) 2 false k.kallsyms (λ b. kfunc_from (c ∷ cs) b k.filter_functions)
      (any_lists (c ∷ cs) k.filter_functions) (any_read k.filter_functions)
      (λ b. kfunc_from_lem (c ∷ cs) b k.filter_functions)

verdict_of-is_absent : (l r : Bool) → not (is_absent (verdict_of l r)) ≡ (l || not r)
verdict_of-is_absent l r = ground arith

keep_head :
    (k : Kernel) (sec : List ℕ) (secs : List (List ℕ))
    → (autoload_filter k (sec ∷ secs)).1
      ≡ (not (is_absent (sec_available k sec)) ∷ (autoload_filter k secs).1)
unfolding autoload_filter
keep_head k sec secs = elim (Bool-cases (is_absent (sec_available k sec))) [
  | inl e ↦ rw e
  | inr e ↦ rw e
]

function_verdict :
    (k : Kernel) (sec kind target : List ℕ)
    → split_slash sec ≡ some (kind, target)
    → one_of kind function_kinds ≡ true
    → sec_available k sec ≡ kfunc_available k target
unfolding sec_available
function_verdict k sec kind target e f = rw (sec_available, e, f)

-- A program whose section names a function stays loaded exactly if kallsyms or one of the ftrace
-- tables lists the function, or none of these files could be read; the verdicts on the other
-- programs do not depend on it.
pub autoload_filter_lem :
    (k : Kernel) (sec kind : List ℕ) (c : ℕ) (cs : List ℕ) (secs : List (List ℕ))
    → split_slash sec ≡ some (kind, c ∷ cs)
    → one_of kind function_kinds ≡ true
    → (autoload_filter k (sec ∷ secs)).1
      ≡ ((lists (c ∷ cs) 2 k.kallsyms || any_lists (c ∷ cs) k.filter_functions)
          || not (can_read k.kallsyms || any_read k.filter_functions))
        ∷ (autoload_filter k secs).1
autoload_filter_lem k sec kind c cs secs e f =
    keep_head k sec secs
    ∙ ap (λ b. b ∷ (autoload_filter k secs).1)
        (ap (λ v. not (is_absent v))
            (function_verdict k sec kind (c ∷ cs) e f ∙ kfunc_available_lem k c cs)
          ∙ verdict_of-is_absent _ _)
