-- ===== src/Urb/Pairing.antt =====
-- Submissions and completions are paired by the URB's address.
use usbtrace.Common.{
  is_some, ℕ, ◌≡◌, ◌≢◌, ◌⊎◌, inl, inr, refl, sym, ◌∙◌, subst, arith, Bool, true, false, List, [],
  ◌∷◌, Option, none, some, if◌then◌else◌, ◌&&◌, not, ◌==◌, Bool-cases, Option-cases, ==_iff, ap,
}
use usbtrace.Common.Int.{ℤ}
use usbtrace.Common.Word.{sub_u64}
use usbtrace.Bpf.{Task, dev_match, KeyMap, NeverFull}
use usbtrace.Urb.{
  UrbConfig, KernelUrb, urb_is_control, urb_passes_filter, on_submit, on_giveback, latency, forget,
  giveback_record,
}

-- A call of one of the two programs.
pub data UrbCall : Type 0 where
  submit : Task → KernelUrb → ℕ → UrbCall
  giveback : Task → KernelUrb → ℤ → ℕ → UrbCall

-- Is the URB traced: it exists, is control if only those are asked for, and its device passes?
abbrev pub is_traced : UrbConfig → KernelUrb → Bool
is_traced cfg urb =
    not (urb.address == 0)
    && (not (cfg.ctrl_only && not (urb_is_control urb)) && is_some (urb_passes_filter cfg urb))

-- When the URB at an address was submitted, by the calls so far, newest first: the last traced
-- submission of it that no completion followed.
abbrev pub pending : UrbConfig → List UrbCall → ℕ → Option ℕ
pending cfg [] k = none
pending cfg (submit task urb ts ∷ calls) k =
    if is_traced cfg urb && urb.address == k then some ts else pending cfg calls k
pending cfg (giveback task urb status now ∷ calls) k =
    if not (urb.address == 0) && urb.address == k then none else pending cfg calls k

==_ne : (a b : ℕ) → (a == b) ≡ false → a ≢ b
==_ne a b h = ground arith

if_true {ℓ} : {A : Type ℓ} {x : A} (y : A) (b : Bool) → b ≡ true → (if b then x else y) ≡ x
if_true y b e = rw e

module _ (K : KeyMap ℕ) where
  open K use {
    Map, empty, lookup, update, delete, lookup-empty, lookup-update_self, lookup-update_ne,
    lookup-delete_self, lookup-delete_ne,
  }

  -- The map after the calls, newest first.
  unfoldable pub map_after : UrbConfig → List UrbCall → Map
  map_after cfg [] = empty
  map_after cfg (submit task urb ts ∷ calls) = (on_submit K cfg task urb ts (map_after cfg calls)).0
  map_after cfg (giveback task urb status now ∷ calls) =
      (on_giveback K cfg task urb status now (map_after cfg calls)).0

  on_submit_map :
      (cfg : UrbConfig) (task : Task) (urb : KernelUrb) (ts : ℕ) (m : Map)
      → (on_submit K cfg task urb ts m).0
        ≡ (if is_traced cfg urb then update m urb.address ts else m)
  unfolding on_submit
  on_submit_map cfg task urb ts m = ground arith

  forget_self : (m : Map) (k : ℕ) → lookup (forget K m k (lookup m k)) k ≡ none
  forget_self m k = elim (Option-cases (lookup m k)) [
    | inl e ↦ rw (e, e)
    | inr (t, e) ↦ rw e (lookup-delete_self m k)
  ]

  forget_ne : (m : Map) (k j : ℕ) (o : Option ℕ) → k ≢ j → lookup (forget K m k o) j ≡ lookup m j
  forget_ne m k j none n = refl
  forget_ne m k j (some t) n = lookup-delete_ne m k j n

  on_giveback_map :
      (cfg : UrbConfig) (task : Task) (urb : KernelUrb) (status : ℤ) (now : ℕ) (m : Map)
      → (on_giveback K cfg task urb status now m).0 ≡ (
          if urb.address == 0
          then m
          else if cfg.ctrl_only && not (urb_is_control urb)
          then delete m urb.address
          else forget K m urb.address (lookup m urb.address))
  unfolding on_giveback
  on_giveback_map cfg task urb status now m = elim (Option-cases (urb_passes_filter cfg urb)) [
    | inl e ↦ ground (arith, e)
    | inr (v, e) ↦ ground (arith, e)
  ]

  update_self : (m : Map) (k v t : ℕ) → lookup (update m k v) k ≡ some t → v ≡ t
  update_self m k v t h = elim (lookup-update_self m k v) [
    | inl e ↦ grind (arith, e, h)
    | inr (_, e) ↦ grind (arith, e, h)
  ]

  lookup_kept :
      (b : Bool) (a k ts t : ℕ) (m : Map)
      → lookup (if b then update m a ts else m) k ≡ some t
      → ((b && a == k) ≡ true × ts ≡ t) ⊎ ((b && a == k) ≡ false × lookup m k ≡ some t)
  lookup_kept false a k ts t m h = inr (refl, h)
  lookup_kept true a k ts t m h = elim (Bool-cases (a == k)) [
    | inl e ↦ inl (
      e,
      update_self m k ts t (subst (λ x. lookup (update m x ts) k ≡ some t) ((==_iff a k).0 e) h),
    )
    | inr e ↦ inr (e, sym (lookup-update_ne m a ts k (==_ne a k e)) ∙ h)
  ]

  lookup_submit :
      (cfg : UrbConfig) (task : Task) (urb : KernelUrb) (ts : ℕ) (m : Map) (k t : ℕ)
      → lookup (on_submit K cfg task urb ts m).0 k ≡ some t
      → ((is_traced cfg urb && urb.address == k) ≡ true × ts ≡ t)
        ⊎ ((is_traced cfg urb && urb.address == k) ≡ false × lookup m k ≡ some t)
  lookup_submit cfg task urb ts m k t h =
      lookup_kept (is_traced cfg urb) urb.address k ts t m
        (subst (λ x. lookup x k ≡ some t) (on_submit_map cfg task urb ts m) h)

  dropped_self :
      (c : Bool) (a k : ℕ) (m : Map)
      → a ≡ k
      → lookup (if c then delete m a else forget K m a (lookup m a)) k ≡ none
  dropped_self true a k m e = subst (λ x. lookup (delete m a) x ≡ none) e (lookup-delete_self m a)
  dropped_self false a k m e =
      subst (λ x. lookup (forget K m a (lookup m a)) x ≡ none) e (forget_self m a)

  dropped_ne :
      (c : Bool) (a k : ℕ) (m : Map)
      → a ≢ k
      → lookup (if c then delete m a else forget K m a (lookup m a)) k ≡ lookup m k
  dropped_ne true a k m n = lookup-delete_ne m a k n
  dropped_ne false a k m n = forget_ne m a k (lookup m a) n

  lookup_dropped :
      (b c : Bool) (a k : ℕ) (m : Map)
      → lookup (if b then m else if c then delete m a else forget K m a (lookup m a)) k
        ≡ (if not b && a == k then none else lookup m k)
  lookup_dropped true c a k m = refl
  lookup_dropped false c a k m = elim (Bool-cases (a == k)) [
    | inl e ↦ dropped_self c a k m ((==_iff a k).0 e) ∙ ground (arith, e)
    | inr e ↦ dropped_ne c a k m (==_ne a k e) ∙ ground (arith, e)
  ]

  lookup_giveback :
      (cfg : UrbConfig) (task : Task) (urb : KernelUrb) (status : ℤ) (now : ℕ) (m : Map) (k : ℕ)
      → lookup (on_giveback K cfg task urb status now m).0 k
        ≡ (if not (urb.address == 0) && urb.address == k then none else lookup m k)
  lookup_giveback cfg task urb status now m k =
      ap (λ x. lookup x k) (on_giveback_map cfg task urb status now m)
      ∙ lookup_dropped (urb.address == 0) (cfg.ctrl_only && not (urb_is_control urb)) urb.address k
          m

  pending_submit :
      (b : Bool) (ts t : ℕ) (l p : Option ℕ)
      → (l ≡ some t → p ≡ some t)
      → (b ≡ true × (ts ≡ t)) ⊎ (b ≡ false × (l ≡ some t))
      → (if b then some ts else p) ≡ some t
  pending_submit true ts t l p ih (inl (_, e)) = ap some e
  pending_submit true ts t l p ih (inr (e, _)) = ground (arith, e)
  pending_submit false ts t l p ih (inl (e, _)) = ground (arith, e)
  pending_submit false ts t l p ih (inr (_, h)) = ih h

  pending_giveback :
      (b : Bool) (t : ℕ) (l p : Option ℕ)
      → (l ≡ some t → p ≡ some t)
      → (if b then none else l) ≡ some t
      → (if b then none else p) ≡ some t
  pending_giveback true t l p ih h = h
  pending_giveback false t l p ih h = ih h

  lookup_added :
      (b : Bool) (a k ts : ℕ) (m : Map)
      → NeverFull K
      → lookup (if b then update m a ts else m) k ≡ (if b && a == k then some ts else lookup m k)
  lookup_added false a k ts m full = refl
  lookup_added true a k ts m full = elim (Bool-cases (a == k)) [
    | inl e ↦
        subst (λ x. lookup (update m a ts) x ≡ some ts) ((==_iff a k).0 e) (full m a ts)
        ∙ ground (arith, e)
    | inr e ↦ lookup-update_ne m a ts k (==_ne a k e) ∙ ground (arith, e)
  ]

  -- A time in the map is that of the pending submission.
  pub lookup-pending :
      (cfg : UrbConfig) (calls : List UrbCall) (k t : ℕ)
      → lookup (map_after cfg calls) k ≡ some t
      → pending cfg calls k ≡ some t
  unfolding map_after
  lookup-pending cfg [] k t h = sym (lookup-empty k) ∙ h
  lookup-pending cfg (submit task urb ts ∷ calls) k t h =
      pending_submit (is_traced cfg urb && urb.address == k) ts t (lookup (map_after cfg calls) k)
        (pending cfg calls k) (lookup-pending cfg calls k t)
        (lookup_submit cfg task urb ts (map_after cfg calls) k t h)
  lookup-pending cfg (giveback task urb status now ∷ calls) k t h =
      pending_giveback (not (urb.address == 0) && urb.address == k) t
        (lookup (map_after cfg calls) k) (pending cfg calls k) (lookup-pending cfg calls k t)
        (sym (lookup_giveback cfg task urb status now (map_after cfg calls) k) ∙ h)

  -- With a map that is never full, `start_ts` holds the pending submissions and nothing else.
  pub lookup-map_after :
      (cfg : UrbConfig) (calls : List UrbCall) (k : ℕ)
      → NeverFull K
      → lookup (map_after cfg calls) k ≡ pending cfg calls k
  unfolding map_after
  lookup-map_after cfg [] k full = lookup-empty k
  lookup-map_after cfg (submit task urb ts ∷ calls) k full =
      ap (λ x. lookup x k) (on_submit_map cfg task urb ts (map_after cfg calls))
      ∙ (lookup_added (is_traced cfg urb) urb.address k ts (map_after cfg calls) full
          ∙ ap (λ x. if is_traced cfg urb && urb.address == k then some ts else x)
              (lookup-map_after cfg calls k full))
  lookup-map_after cfg (giveback task urb status now ∷ calls) k full =
      lookup_giveback cfg task urb status now (map_after cfg calls) k
      ∙ ap (λ x. if not (urb.address == 0) && urb.address == k then none else x)
          (lookup-map_after cfg calls k full)

  on_giveback_emits :
      (cfg : UrbConfig) (task : Task) (urb : KernelUrb) (status : ℤ) (now : ℕ) (m : Map)
      → (on_giveback K cfg task urb status now m).1 ≡ (
          if is_traced cfg urb
          then some (
              giveback_record urb urb.dev.vid urb.dev.product task status now
                (latency now (lookup m urb.address)))
          else none)
  unfolding on_giveback dev_match
  on_giveback_emits cfg task urb status now m = ground arith

  latency_of :
      (now : ℕ) (o p : Option ℕ)
      → ((t : ℕ) → o ≡ some t → p ≡ some t)
      → (latency now o ≡ 0) ⊎ ((t : ℕ) × ((p ≡ some t) × (latency now o ≡ sub_u64 now t)))
  latency_of now none p h = inl refl
  latency_of now (some t) p h = inr (t, (h t refl, refl))

  -- After any calls, with a map that may fill up, the completion of a traced URB puts a record on
  -- the buffer. Its latency is 0, or it is the time (modulo 2^64) since the pending submission of
  -- this URB: never since that of another URB or of an earlier transfer. The URB has no entry left.
  pub on_giveback_pairs :
      (cfg : UrbConfig) (calls : List UrbCall) (task : Task) (urb : KernelUrb) (status : ℤ)
      (now : ℕ)
      → is_traced cfg urb ≡ true
      → (lat : ℕ) × (((on_giveback K cfg task urb status now (map_after cfg calls)).1
            ≡ some (giveback_record urb urb.dev.vid urb.dev.product task status now lat))
          × (((lat ≡ 0)
                ⊎ ((t : ℕ) × ((pending cfg calls urb.address ≡ some t) × (lat ≡ sub_u64 now t))))
              × (lookup (on_giveback K cfg task urb status now (map_after cfg calls)).0 urb.address
                  ≡ none)))
  on_giveback_pairs cfg calls task urb status now traced = (
    latency now (lookup (map_after cfg calls) urb.address),
    (
      on_giveback_emits cfg task urb status now (map_after cfg calls)
          ∙ if_true _ (is_traced cfg urb) traced,
      (
        latency_of now (lookup (map_after cfg calls) urb.address) (pending cfg calls urb.address)
            (lookup-pending cfg calls urb.address),
        lookup_giveback cfg task urb status now (map_after cfg calls) urb.address
            ∙ if_true _ (not (urb.address == 0) && urb.address == urb.address)
                (ground (arith, traced)),
      ),
    ),
  )
