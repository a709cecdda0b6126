-- ===== src/Usb/Finding.antt =====
-- Which device and which interface the searches of src/usb/usb_transport.cpp find.
use adbcpp.Base.{
  ℕ, ◌≡◌, refl, sym, ◌∙◌, ◌⊎◌, inl, inr, ◌↔◌, ◌≢◌, Bool, true, false, not, ◌&&◌, ◌||◌, ◌==◌,
  Bool-cases, arith, List, [], ◌∷◌, Option, none, some, is_empty, eq_bytes, eq_bytes_iff,
}
use mathlib.Core.Path.{subst}
use adbcpp.Usb.Devices.{
  DeviceId, DeviceDescriptor, Devices, Opens, matches, device_serial, is_meant, find_device,
}

-- A selector whose ids are zero or those of the descriptor.
abbrev pub IsModel : DeviceDescriptor → DeviceId → Type 0
IsModel descriptor id =
    ((id.vendor_id ≡ 0) ⊎ (descriptor.id_vendor ≡ id.vendor_id))
    × ((id.product_id ≡ 0) ⊎ (descriptor.id_product ≡ id.product_id))

id_test :
    (wanted found : ℕ)
    → ((not (wanted == 0) && not (found == wanted)) ≡ false) ↔ ((wanted ≡ 0) ⊎ (found ≡ wanted))
id_test wanted found = ground arith

false-true : false ≢ true
false-true h = cc

and_iff : (a b : Bool) → ((a && b) ≡ true) ↔ ((a ≡ true) × (b ≡ true))
and_iff true b = (λ h. (refl, h), λ (x, y). y)
and_iff false b = (λ h. absurd (false-true h), λ (x, y). x)

matches_iff :
    (descriptor : DeviceDescriptor) (id : DeviceId)
    → (matches descriptor id ≡ true) ↔ IsModel descriptor id
unfolding matches
matches_iff descriptor id =
    let vendor = id_test id.vendor_id descriptor.id_vendor in
    let product = id_test id.product_id descriptor.id_product in
    elim (Bool-cases (not (id.vendor_id == 0) && not (descriptor.id_vendor == id.vendor_id))) [
      | inl v ↦ (
        λ h. absurd (false-true (rw v at h)),
        λ (m, n). absurd (false-true (sym (vendor.1 m) ∙ v)),
      )
      | inr v ↦
          elim (Bool-cases
            (not (id.product_id == 0) && not (descriptor.id_product == id.product_id))) [
              | inl p ↦ (
                λ h. absurd (false-true (rw (v, p) at h)),
                λ (m, n). absurd (false-true (sym (product.1 n) ∙ p)),
              )
              | inr p ↦ (λ h. (vendor.0 v, product.0 p), λ (m, n). rw (v, p))
            ]
    ]

cons_nil : {x : ℕ} {xs : List ℕ} → x ∷ xs ≢ []
cons_nil h = cc

serial_iff :
    (wanted found : List ℕ)
    → ((is_empty wanted || eq_bytes found wanted) ≡ true) ↔ ((wanted ≡ []) ⊎ (found ≡ wanted))
serial_iff [] found = (λ h. inl refl, λ h. refl)
serial_iff (w ∷ wanted) found = (
  λ h. inr ((eq_bytes_iff found (w ∷ wanted)).0 h),
  λ h. elim h [ inl e ↦ absurd (cons_nil e) | inr e ↦ (eq_bytes_iff found (w ∷ wanted)).1 e ],
)

pub left_right : {A B : Type 0} {a : A} {b : B} → inl a ≢ inr b
left_right h = cc

pub right_right : {A B : Type 0} (o : A ⊎ B) {a b : B} → o ≡ inr a → o ≡ inr b → a ≡ b
right_right o h k = cc

-- The first element of a list that has a property, if any has, where a state goes from element to
-- element.
pub data FirstOf {D V : Type 0} (P : V → D → Type 0) (behind : V → D → D)
    : List V → D → Option V × D → Type 0 where
  none_left : (d : D) → FirstOf P behind [] d (none, d)
  here : (v : V) (vs : List V) (d : D) → P v d → FirstOf P behind (v ∷ vs) d (some v, behind v d)
  later :
      (v : V) (vs : List V) (d : D) (r : Option V × D)
      → ¬ P v d
      → FirstOf P behind vs (behind v d) r
      → FirstOf P behind (v ∷ vs) d r

module _ {D V : Type 0} (opens : Opens D V) (os : Devices V) where
  -- A device whose descriptor can be read, of the model and with the serial that are asked for, as it
  -- is read in the state.
  abbrev pub Suits : DeviceId → V → D → Type 0
  Suits id device d =
      (descriptor : DeviceDescriptor) × (os.device_descriptor device ≡ inr descriptor)
      × IsModel descriptor id
      × ((id.serial ≡ []) ⊎ ((device_serial opens device descriptor d).0 ≡ id.serial))

  -- The state behind the tests of a device.
  abbrev pub tested : DeviceId → V → D → D
  tested id device d = elim (os.device_descriptor device) [
    | inl code ↦ d
    | inr descriptor ↦ (is_meant opens id device descriptor d).1
  ]

  is_meant_iff :
      (id : DeviceId) (device : V) (descriptor : DeviceDescriptor) (d : D)
      → ((is_meant opens id device descriptor d).0 ≡ true) ↔ (
          IsModel descriptor id
          × ((id.serial ≡ []) ⊎ ((device_serial opens device descriptor d).0 ≡ id.serial)))
  unfolding is_meant
  is_meant_iff id device descriptor d =
      let model = matches_iff descriptor id in
      let found = (device_serial opens device descriptor d).0 in
      let named = serial_iff id.serial found in
      elim (Bool-cases (matches descriptor id)) [
        | inr m ↦ (
          λ h. absurd (false-true (rw m at h)),
          λ (n, k). absurd (false-true (sym m ∙ model.1 n)),
        )
        | inl m ↦ elim (Bool-cases (is_empty id.serial)) [
          | inl e ↦ (λ h. (model.0 m, named.0 (rw e refl)), λ (n, k). rw (m, e))
          | inr e ↦ (
            λ h. (model.0 m, named.0 (rw e (rw (m, e) at h))),
            λ (n, k). rw (m, e) (rw e at named.1 k),
          )
        ]
      ]

  -- The search finds the first device of the list that suits the selector, and none only where no
  -- device does, each by the serial that is read when its turn comes.
  pub find_device-FirstOf :
      (devices : List V) (id : DeviceId) (d : D)
      → FirstOf (Suits id) (tested id) devices d (find_device opens os devices id d)
  find_device-FirstOf [] id d = none_left d
  find_device-FirstOf (v ∷ devices) id d =
      at (os.device_descriptor v) refl (λ x. find_device-FirstOf devices id x)
    where
      at :
          (r : ℕ ⊎ DeviceDescriptor)
          → os.device_descriptor v ≡ r
          → ((x : D) → FirstOf (Suits id) (tested id) devices x (find_device opens os devices id x))
          → FirstOf (Suits id) (tested id) (v ∷ devices) d (find_device opens os (v ∷ devices) id d)
      at (inl code) e rest =
          let runs : find_device opens os (v ∷ devices) id d
              ≡ find_device opens os devices id (tested id v d) =
            rw (e, find_device, tested) refl in
          subst (FirstOf (Suits id) (tested id) (v ∷ devices) d) (sym runs) (
            later v devices d _ (λ (x, f, m, n). absurd (left_right (sym e ∙ f)))
              (rest (tested id v d)))
      at (inr descriptor) e rest = elim (Bool-cases (is_meant opens id v descriptor d).0) [
        | inl m ↦
            let runs : find_device opens os (v ∷ devices) id d ≡ (some v, tested id v d) =
              rw (e, m, find_device, tested) refl in
            let (n, k) = (is_meant_iff id v descriptor d).0 m in
            subst (FirstOf (Suits id) (tested id) (v ∷ devices) d) (sym runs)
              (here v devices d (descriptor, e, n, k))
        | inr m ↦
            let runs : find_device opens os (v ∷ devices) id d
                ≡ find_device opens os devices id (tested id v d) =
              rw (e, m, find_device, tested) refl in
            subst (FirstOf (Suits id) (tested id) (v ∷ devices) d) (sym runs) (
              later v devices d _
                (λ (x, f, n, k).
                  let same : x ≡ descriptor = right_right (os.device_descriptor v) f e in
                  absurd (
                    false-true
                      (sym m ∙ (is_meant_iff id v descriptor d).1 (rw same at n, rw same at k))))
                (rest (tested id v d)))
      ]
