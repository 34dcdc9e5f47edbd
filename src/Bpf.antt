-- ===== src/Bpf.antt =====
-- What the BPF programs share: include/usbtrace/filter.bpf.h, the pointer macros of pt_regs.bpf.h on
-- a 64-bit kernel, the output macro of events.bpf.h, and the hash maps of the kernel, which are a parameter.
use usbtrace.Common.{
  ℕ, ◌≡◌, ◌≢◌, ◌⊎◌, inl, refl, arith, Option, none, some, Bool, List, [], ◌∷◌, ◌==◌, ◌&&◌, not,
  if◌then◌else◌,
}

-- What the programs read of a `struct usb_device`.
pub record KernelDev : Type 0 where
  pub vid : ℕ  -- descriptor.idVendor
  pub product : ℕ  -- descriptor.idProduct
  pub busnum : ℕ
  pub devnum : ℕ
  pub state : ℕ
  pub speed : ℕ
  pub portnum : ℕ
  pub devpath : List ℕ

-- `bpf_get_current_pid_tgid` and `bpf_get_current_comm`.
pub record Task : Type 0 where
  pub pid_tgid : ℕ
  pub tgid : ℕ
  pub comm : List ℕ

-- `usbtrace_dev_match`: the ids that it writes, or no match. A filter of 0 matches any device.
unfoldable pub dev_match : KernelDev → ℕ → ℕ → Option (ℕ × ℕ)
dev_match dev fvid fpid =
    if not (fvid == 0) && not (dev.vid == fvid)
    then none
    else if not (fpid == 0) && not (dev.product == fpid)
    then none
    else some (dev.vid, dev.product)

-- `USBTRACE_EVENT_OUTPUT`: the records that the callback gets of one record, by whether the event
-- buffer has room for it. One that finds no room is dropped.
unfoldable pub event_output {ℓ} : {A : Type ℓ} → Bool → A → List A
event_output has_room e = if has_room then e ∷ [] else []

-- A BPF hash map from numbers to values. `update` may fail to add a key to a full map, and never
-- fails to replace a value.
pub record KeyMap (V : Type 0) : Type 1 where
  pub Map : Type 0
  pub empty : Map
  pub lookup : Map → ℕ → Option V
  pub update : Map → ℕ → V → Map
  pub delete : Map → ℕ → Map
  pub lookup-empty : (k : ℕ) → lookup empty k ≡ none
  pub lookup-update_self :
      (m : Map) (k : ℕ) (v : V)
      → (lookup (update m k v) k ≡ some v)
        ⊎ ((lookup m k ≡ none) × (lookup (update m k v) k ≡ none))
  pub lookup-update_ne :
      (m : Map) (k : ℕ) (v : V) (j : ℕ) → k ≢ j → lookup (update m k v) j ≡ lookup m j
  pub lookup-delete_self : (m : Map) (k : ℕ) → lookup (delete m k) k ≡ none
  pub lookup-delete_ne : (m : Map) (k j : ℕ) → k ≢ j → lookup (delete m k) j ≡ lookup m j

-- Every update of a map succeeds.
abbrev pub NeverFull : {V : Type 0} → KeyMap V → Type 0
NeverFull {V} K = (m : K.Map) (k : ℕ) (v : V) → K.lookup (K.update m k v) k ≡ some v

-- A map that is never full.
module _ {V : Type 0} where
  abbrev pub set_key : (ℕ → Option V) → ℕ → V → ℕ → Option V
  set_key m k v j = if j == k then some v else m j

  abbrev pub unset_key : (ℕ → Option V) → ℕ → ℕ → Option V
  unset_key m k j = if j == k then none else m j

  pub set_key_self : (m : ℕ → Option V) (k : ℕ) (v : V) → set_key m k v k ≡ some v
  set_key_self m k v = ground arith

  pub set_key_ne : (m : ℕ → Option V) (k : ℕ) (v : V) (j : ℕ) → k ≢ j → set_key m k v j ≡ m j
  set_key_ne m k v j n = ground arith

  pub unset_key_self : (m : ℕ → Option V) (k : ℕ) → unset_key m k k ≡ none
  unset_key_self m k = ground arith

  pub unset_key_ne : (m : ℕ → Option V) (k j : ℕ) → k ≢ j → unset_key m k j ≡ m j
  unset_key_ne m k j n = ground arith

  abbrev pub roomy_map : KeyMap V
  roomy_map = record {
    Map = ℕ → Option V;
    empty = λ k. none;
    lookup = λ m k. m k;
    update = set_key;
    delete = unset_key;
    lookup-empty = λ k. refl;
    lookup-update_self = λ m k v. inl (set_key_self m k v);
    lookup-update_ne = set_key_ne;
    lookup-delete_self = unset_key_self;
    lookup-delete_ne = unset_key_ne;
  }
