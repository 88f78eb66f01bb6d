-- ===== src/Net/Device/Names.antt =====
-- The devices of network/src/network.c, by their names.
use uint_os.Common.{
  ℕ, ◌≤◌, ◌≡◌, ◌≢◌, ◌⊎◌, refl, ap, sym, ◌∙◌, Bool, true, false, not, Option, none, some, List, [],
  ◌∷◌, ◌++◌, ◌==◌, leb, if◌then◌else◌, length, length-append, arith, Bool-cases, inl, inr,
}
use mathlib.Core.Path.{subst}
use uint_os.Common.Int.{ℤ, pos}
use uint_os.Net.Buffer.{net_err_invalid}
use uint_os.Net.Device.{
  NetDevice, NetState, same_text, find_device, is_taken, network_register_device,
  network_find_device_by_name,
}

-- Each device has a name that none after it has.
abbrev pub Distinct : (ℕ → NetDevice) → List ℕ → Type 0
Distinct device_at [] = Unit
Distinct device_at (d ∷ rest) =
    (is_taken device_at (device_at d).name rest ≡ false) × Distinct device_at rest

-- What registration keeps: at most eight devices, with names of their own, and a default device as
-- soon as there is one.
pub record IsNetwork (s : NetState) : Type 0 where
  pub ready : s.initialized ≡ true
  pub distinct : Distinct s.device_at s.devices
  pub fits : length s.devices ≤ 8
  pub has_default : length s.devices ≢ 0 → s.default_device ≢ none

same_text_self : (xs : List ℕ) → same_text xs xs ≡ true
same_text_self [] = refl
same_text_self (x ∷ xs) = ground (arith, same_text_self xs)

same_text_sym : (xs ys : List ℕ) → same_text xs ys ≡ same_text ys xs
same_text_sym [] [] = refl
same_text_sym [] (y ∷ ys) = refl
same_text_sym (x ∷ xs) [] = refl
same_text_sym (x ∷ xs) (y ∷ ys) = ground (arith, same_text_sym xs ys)

module _ (device_at : ℕ → NetDevice) where
  snoc-is_taken :
      (ds : List ℕ) (dev : ℕ) (name : List ℕ)
      → is_taken device_at name ds ≡ false
      → same_text (device_at dev).name name ≡ false
      → is_taken device_at name (ds ++ (dev ∷ [])) ≡ false
  snoc-is_taken [] dev name e ne = rw ne refl
  snoc-is_taken (d ∷ ds) dev name e ne = ground (arith, snoc-is_taken ds dev name)

  snoc-Distinct :
      (ds : List ℕ) (dev : ℕ)
      → Distinct device_at ds
      → is_taken device_at (device_at dev).name ds ≡ false
      → Distinct device_at (ds ++ (dev ∷ []))
  snoc-Distinct [] dev h e = (refl, tt)
  snoc-Distinct (d ∷ ds) dev h e = (
    snoc-is_taken ds dev (device_at d).name h.0
        (same_text_sym (device_at dev).name (device_at d).name ∙ ground arith),
    snoc-Distinct ds dev h.1 (ground arith),
  )

  find-new :
      (ds : List ℕ) (dev : ℕ)
      → is_taken device_at (device_at dev).name ds ≡ false
      → find_device (λ d. same_text (device_at d).name (device_at dev).name) (ds ++ (dev ∷ []))
        ≡ some dev
  find-new [] dev e = rw (same_text_self (device_at dev).name) refl
  find-new (d ∷ ds) dev e = ground (arith, find-new ds dev)

  find-old :
      (ds : List ℕ) (dev d : ℕ) (name : List ℕ)
      → find_device (λ x. same_text (device_at x).name name) ds ≡ some d
      → find_device (λ x. same_text (device_at x).name name) (ds ++ (dev ∷ [])) ≡ some d
  find-old [] dev d name e = cc e
  find-old (x ∷ ds) dev d name e = elim (Bool-cases (same_text (device_at x).name name)) [
    | inl same ↦ rw same (rw same at e)
    | inr other ↦ rw other (find-old ds dev d name (rw other at e))
  ]

register_default :
    (n dev : ℕ) (old : Option ℕ) → (n ≢ 0 → old ≢ none) → (if n == 0 then some dev else old) ≢ none
register_default n dev old h = elim (Bool-cases (n == 0)) [
  | inl e ↦ rw e (λ t. cc t)
  | inr e ↦ rw e (h (ground arith))
]

-- The network with a device more.
added : NetState → ℕ → NetState
added s dev = record s {
  devices = s.devices ++ (dev ∷ []);
  default_device = if length s.devices == 0 then some dev else s.default_device;
}

-- What a registration may result in: the device is added and found by its name, while every name
-- that led to a device still does, or nothing is changed, because the table is full or the name is
-- taken.
pub record Registers (s : NetState) (dev : ℕ) (r : NetState × ℤ) : Type 0 where
  pub in_order : IsNetwork r.0
  pub outcome :
      ((network_find_device_by_name r.0 (some (s.device_at dev).name) ≡ some dev)
        × (((name : List ℕ) (d : ℕ)
              → network_find_device_by_name s (some name) ≡ some d
              → network_find_device_by_name r.0 (some name) ≡ some d)
            × (r.1 ≡ pos 0)))
      ⊎ ((r ≡ (s, net_err_invalid))
          × ((length s.devices ≡ 8)
              ⊎ (is_taken s.device_at (s.device_at dev).name s.devices ≡ true)))

find-ready :
    (s : NetState) (name : List ℕ)
    → s.initialized ≡ true
    → network_find_device_by_name s (some name)
      ≡ find_device (λ d. same_text (s.device_at d).name name) s.devices
unfolding network_find_device_by_name
find-ready s name e =
    ap
      (λ t.
        if not t then none else find_device (λ d. same_text (s.device_at d).name name) s.devices)
      e

added-Registers :
    (s : NetState) (dev : ℕ)
    → IsNetwork s
    → leb 8 (length s.devices) ≡ false
    → is_taken s.device_at (s.device_at dev).name s.devices ≡ false
    → Registers s dev (added s dev, pos 0)
unfolding added
added-Registers s dev n room free = record {
  in_order = record {
    ready = n.ready;
    distinct = snoc-Distinct s.device_at s.devices dev n.distinct free;
    fits = ground (arith, length-append s.devices (dev ∷ []));
    has_default =
        λ some_device. register_default (length s.devices) dev s.default_device n.has_default;
  };
  outcome = inl (
    find-ready (added s dev) (s.device_at dev).name n.ready
        ∙ find-new s.device_at s.devices dev free,
    (
      (λ name d e.
          find-ready (added s dev) name n.ready
          ∙ find-old s.device_at s.devices dev d name (sym (find-ready s name n.ready) ∙ e)),
      refl,
    ),
  );
}

-- network_register_device, on a network in order (at most eight devices with distinct names, and a
-- default device once there is one), keeps it in order. Either it adds the device, which is then
-- found by its name, while every name that led to a device still does, or it fails and changes
-- nothing, because the table is full or the name is taken.
pub register_device_lem :
    (s : NetState) (dev : ℕ) → IsNetwork s → Registers s dev (network_register_device s (some dev))
unfolding network_register_device added
register_device_lem s dev n =
    subst (Registers s dev)
      (ap (λ t. if not t then (s, net_err_invalid) else attempt) (sym n.ready))
      (go (leb 8 (length s.devices)) (is_taken s.device_at (s.device_at dev).name s.devices) refl
        refl)
  where
    attempt : NetState × ℤ
    attempt =
        if leb 8 (length s.devices)
        then (s, net_err_invalid)
        else if is_taken s.device_at (s.device_at dev).name s.devices
        then (s, net_err_invalid)
        else (added s dev, pos 0)

    go :
        (full taken : Bool)
        → leb 8 (length s.devices) ≡ full
        → is_taken s.device_at (s.device_at dev).name s.devices ≡ taken
        → Registers s dev (
            if full
            then (s, net_err_invalid)
            else if taken
            then (s, net_err_invalid)
            else (added s dev, pos 0))
    go true taken e f = record { in_order = n; outcome = inr (refl, inl (ground (arith, n.fits))) }
    go false true e f = record { in_order = n; outcome = inr (refl, inr f) }
    go false false e f = added-Registers s dev n e f
