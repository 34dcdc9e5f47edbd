-- ===== src/Tracers/Pending.antt =====
-- The maps that carry a device from the entry of a traced function to its return: `stash` of
-- enum.bpf.c, and the same steps in `on_new_device` of lifecycle.bpf.c.
use usbtrace.Common.{
  ℕ, ◌≡◌, ◌≢◌, ◌⊎◌, inl, inr, refl, sym, ◌∙◌, ap, arith, true, false, List, [], ◌∷◌, Option, none,
  some, if◌then◌else◌, ◌&&◌, not, ◌==◌, Bool-cases, Option-cases, ==_iff,
}
use usbtrace.Bpf.{KeyMap, NeverFull}

-- A probe on the entry of the function, with the thread and its first argument, or on its return.
pub data Probe : Type 0 where
  entry : ℕ → ℕ → Probe
  return : ℕ → Probe

-- The device that a thread is in the traced function with, by the probes so far, newest first: the
-- argument of its last entry that was not NULL, unless a return followed.
abbrev pub pending : List Probe → ℕ → Option ℕ
pending [] k = none
pending (entry id dev ∷ ps) k = if not (dev == 0) && id == k then some dev else pending ps k
pending (return id ∷ ps) k = if id == k then none else pending ps k

module _ (K : KeyMap ℕ) where
  open K use {
    Map, empty, lookup, update, delete, lookup-empty, lookup-update_self, lookup-update_ne,
    lookup-delete_self, lookup-delete_ne,
  }

  -- `stash`.
  unfoldable pub stash : Map → ℕ → ℕ → Map
  stash m id udev = if udev == 0 then m else update m id udev

  -- `if (!pud) return 0; ... bpf_map_delete_elem(map, &id)`.
  unfoldable pub unstash : Map → ℕ → Map
  unstash m id = elim (lookup m id) [ none ↦ m | some udev ↦ delete m id ]

  -- The map after the probes, newest first.
  unfoldable pub map_after : List Probe → Map
  map_after [] = empty
  map_after (entry id dev ∷ ps) = stash (map_after ps) id dev
  map_after (return id ∷ ps) = unstash (map_after ps) id

  key_cases : (a b : ℕ) → ((a == b) ≡ true × (a ≡ b)) ⊎ ((a == b) ≡ false × (a ≢ b))
  key_cases a b = elim (Bool-cases (a == b)) [
    | inl e ↦ inl (e, (==_iff a b).0 e)
    | inr e ↦ inr (e, ground (arith, e))
  ]

  lookup-unstash :
      (m : Map) (id k : ℕ) → lookup (unstash m id) k ≡ (if id == k then none else lookup m k)
  unfolding unstash
  lookup-unstash m id k = elim (Option-cases (lookup m id)) [
    | inl e ↦ elim (key_cases id k) [
      | inl (b, p) ↦ rw (unstash, e, b) (sym (ap (lookup m) p) ∙ e)
      | inr (b, n) ↦ rw (unstash, e, b) refl
    ]
    | inr (t, e) ↦ elim (key_cases id k) [
      | inl (b, p) ↦
          rw (unstash, e, b) (sym (ap (lookup (delete m id)) p) ∙ lookup-delete_self m id)
      | inr (b, n) ↦ rw (unstash, e, b) (lookup-delete_ne m id k n)
    ]
  ]

  lookup-stash :
      (m : Map) (id dev k : ℕ)
      → NeverFull K
      → lookup (stash m id dev) k ≡ (if not (dev == 0) && id == k then some dev else lookup m k)
  unfolding stash
  lookup-stash m id dev k full = elim (Bool-cases (dev == 0)) [
    | inl z ↦ rw z refl
    | inr z ↦ elim (key_cases id k) [
      | inl (b, p) ↦ rw (z, b) (sym (ap (lookup (update m id dev)) p) ∙ full m id dev)
      | inr (b, n) ↦ rw (z, b) (lookup-update_ne m id dev k n)
    ]
  ]

  added : (m : Map) (id dev a : ℕ) → lookup (update m id dev) id ≡ some a → some dev ≡ some a
  added m id dev a h = elim (lookup-update_self m id dev) [
    | inl e ↦ sym e ∙ h
    | inr (_, e) ↦ ground (arith, e, h)
  ]

  stash_pending :
      (m : Map) (id dev k a : ℕ) (p : Option ℕ)
      → (lookup m k ≡ some a → p ≡ some a)
      → lookup (stash m id dev) k ≡ some a
      → (if not (dev == 0) && id == k then some dev else p) ≡ some a
  unfolding stash
  stash_pending m id dev k a p ih = elim (Bool-cases (dev == 0)) [
    | inl z ↦ rw z ih
    | inr z ↦ elim (key_cases id k) [
      | inl (b, e) ↦
          rw (z, b)
            λ (h : lookup (update m id dev) k ≡ some a).
              added m id dev a (ap (lookup (update m id dev)) e ∙ h)
      | inr (b, n) ↦
          rw (z, b)
            λ (h : lookup (update m id dev) k ≡ some a).
              ih (sym (lookup-update_ne m id dev k n) ∙ h)
    ]
  ]

  unstash_pending :
      (m : Map) (id k a : ℕ) (p : Option ℕ)
      → (lookup m k ≡ some a → p ≡ some a)
      → (if id == k then none else lookup m k) ≡ some a
      → (if id == k then none else p) ≡ some a
  unstash_pending m id k a p ih h = ground (arith, ih, h)

  -- A device in the map is the pending one of the thread, even if the map fills up.
  pub lookup-pending :
      (ps : List Probe) (k a : ℕ) → lookup (map_after ps) k ≡ some a → pending ps k ≡ some a
  unfolding map_after
  lookup-pending [] k a h = sym (lookup-empty k) ∙ h
  lookup-pending (entry id dev ∷ ps) k a h =
      stash_pending (map_after ps) id dev k a (pending ps k) (lookup-pending ps k a) h
  lookup-pending (return id ∷ ps) k a h =
      unstash_pending (map_after ps) id k a (pending ps k) (lookup-pending ps k a)
        (sym (lookup-unstash (map_after ps) id k) ∙ h)

  -- With a map that is never full it holds the pending devices, and nothing else.
  pub lookup-map_after :
      (ps : List Probe) (k : ℕ) → NeverFull K → lookup (map_after ps) k ≡ pending ps k
  unfolding map_after
  lookup-map_after [] k full = lookup-empty k
  lookup-map_after (entry id dev ∷ ps) k full =
      lookup-stash (map_after ps) id dev k full
      ∙ ap (λ x. if not (dev == 0) && id == k then some dev else x) (lookup-map_after ps k full)
  lookup-map_after (return id ∷ ps) k full =
      lookup-unstash (map_after ps) id k
      ∙ ap (λ x. if id == k then none else x) (lookup-map_after ps k full)

  -- After a return the thread has no entry in the map.
  pub lookup-unstash_self : (m : Map) (id : ℕ) → lookup (unstash m id) id ≡ none
  lookup-unstash_self m id = lookup-unstash m id id ∙ ground arith
