-- ===== src/Usb/Interfaces.antt =====
-- Which interface of a device the search of src/usb/usb_transport.cpp finds.
use mathlib.Core.List.{Memᴰ}
use adbcpp.Base.{
  ℕ, ◌≡◌, refl, sym, ap, ◌∙◌, ◌⊎◌, inl, inr, ◌≢◌, true, false, ◌||◌, ◌==◌, Bool-cases, arith, List,
  [], ◌∷◌, ◌++◌, Option, none, some,
}
use adbcpp.Outcome.{ok}
use adbcpp.Usb.Devices.{
  AltSetting, Devices, AdbInterface, is_adb, add_endpoints, search_settings, search_interfaces,
  usable, find_adb_interface,
}
use adbcpp.Usb.Finding.{left_right, right_right}
use adbcpp.Usb.Endpoints.{HasEndpoint, add_endpoints-in, add_endpoints-out, add_endpoints-number}

abbrev pub nothing_found : AdbInterface
nothing_found = record { number = none; endpoint_in = 0; endpoint_out = 0 }

-- What an ADB setting gives.
abbrev blank : AltSetting → AdbInterface
blank s = record { number = some s.b_interface_number; endpoint_in = 0; endpoint_out = 0 }

abbrev pub given : AltSetting → AdbInterface
given s = add_endpoints s.endpoints (blank s)

abbrev Searched : List AltSetting → AdbInterface → Type 0
Searched settings found =
    (found ≡ nothing_found)
    ⊎ ((s : AltSetting) × Memᴰ s settings × (is_adb s ≡ true) × (found ≡ given s))

search_settings-Searched :
    (settings : List AltSetting) → Searched settings (search_settings settings nothing_found)
search_settings-Searched [] = inl refl
search_settings-Searched (s ∷ rest) = elim (Bool-cases (is_adb s)) [
  | inl adb ↦ rw adb (inr (s, Memᴰ.head refl, adb, refl))
  | inr other ↦ rw other (later_setting (search_settings-Searched rest))
]
  where
    later_setting : {found : AdbInterface} → Searched rest found → Searched (s ∷ rest) found
    later_setting (inl h) = inl h
    later_setting (inr (t, m, adb, e)) = inr (t, Memᴰ.tail m, adb, e)

search_interfaces-found :
    (config : List (List AltSetting)) (found : AdbInterface) (n : ℕ)
    → found.number ≡ some n
    → search_interfaces config found ≡ found
search_interfaces-found [] found n h = refl
search_interfaces-found (i ∷ rest) found n h = rw h

given-number : (s : AltSetting) → (given s).number ≡ some s.b_interface_number
given-number s = add_endpoints-number s.endpoints (blank s)

-- The settings of every interface, in their order.
abbrev pub all_settings : List (List AltSetting) → List AltSetting
all_settings [] = []
all_settings (i ∷ rest) = i ++ all_settings rest

Memᴰ-left : (s : AltSetting) (xs ys : List AltSetting) → Memᴰ s xs → Memᴰ s (xs ++ ys)
Memᴰ-left s [] ys m = elim m [ ]
Memᴰ-left s (x ∷ xs) ys (Memᴰ.head e) = Memᴰ.head e
Memᴰ-left s (x ∷ xs) ys (Memᴰ.tail m) = Memᴰ.tail (Memᴰ-left s xs ys m)

Memᴰ-right : (s : AltSetting) (xs ys : List AltSetting) → Memᴰ s ys → Memᴰ s (xs ++ ys)
Memᴰ-right s [] ys m = m
Memᴰ-right s (x ∷ xs) ys m = Memᴰ.tail (Memᴰ-right s xs ys m)

search_interfaces-Searched :
    (config : List (List AltSetting))
    → Searched (all_settings config) (search_interfaces config nothing_found)
search_interfaces-Searched [] = inl refl
search_interfaces-Searched (i ∷ rest) =
    step (search_settings i nothing_found) (search_settings-Searched i)
      (search_interfaces-Searched rest)
  where
    step :
        (found : AdbInterface)
        → Searched i found
        → Searched (all_settings rest) (search_interfaces rest nothing_found)
        → Searched (all_settings (i ∷ rest)) (search_interfaces rest found)
    step found (inl e) (inl h) = inl (ap (search_interfaces rest) e ∙ h)
    step found (inl e) (inr (s, m, adb, h)) =
        inr (s, Memᴰ-right s i (all_settings rest) m, adb, ap (search_interfaces rest) e ∙ h)
    step found (inr (s, m, adb, e)) h = inr (
      s,
      Memᴰ-left s i (all_settings rest) m,
      adb,
      search_interfaces-found rest found s.b_interface_number
            (ap (λ (t : AdbInterface). t.number) e ∙ given-number s)
          ∙ e,
    )

ok_some : {A : Type 0} {a b : A} → ok a ≡ ok b → a ≡ b
ok_some e = cc

-- An interface that is ADB's: its setting in the configuration and the addresses of the two bulk
-- endpoints of that setting.
abbrev pub IsAdb : List (List AltSetting) → AdbInterface → Type 0
IsAdb config a =
    (s : AltSetting) × Memᴰ s (all_settings config)
    × (is_adb s ≡ true)
    × (a.number ≡ some s.b_interface_number)
    × HasEndpoint s.endpoints true a.endpoint_in
    × HasEndpoint s.endpoints false a.endpoint_out

none-some : {A : Type 0} {a : A} → none ≢ some a
none-some h = cc

some-some : {x y : AdbInterface} → some x ≡ some y → x ≡ y
some-some e = cc

usable-made :
    (number : Option ℕ) (i o : ℕ) (a : AdbInterface)
    → usable (record { number = number; endpoint_in = i; endpoint_out = o }) ≡ some a
    → (record { number = number; endpoint_in = i; endpoint_out = o } ≡ a) × (i ≢ 0) × (o ≢ 0)
usable-made none i o a h = absurd (none-some h)
usable-made (some number) i o a h = elim (Bool-cases (i == 0 || o == 0)) [
  | inl z ↦ absurd (none-some (rw z at h))
  | inr z ↦ (some-some (rw z at h), ground arith, ground arith)
]

usable-IsAdb :
    (config : List (List AltSetting)) (found a : AdbInterface)
    → Searched (all_settings config) found
    → usable found ≡ some a
    → IsAdb config a
usable-IsAdb config found a (inl e) h = absurd (none-some (rw e at h))
usable-IsAdb config found a (inr (s, m, adb, e)) h =
    let (same, nonzero_in, nonzero_out) =
      usable-made found.number found.endpoint_in found.endpoint_out a h in
    let is_given = sym same ∙ e in
    (
      s,
      m,
      adb,
      ap (λ (t : AdbInterface). t.number) is_given ∙ given-number s,
      elim (add_endpoints-in s.endpoints (blank s)) [
        | inl z ↦ absurd (nonzero_in (ap (λ (t : AdbInterface). t.endpoint_in) e ∙ z))
        | inr has ↦ rw is_given has
      ],
      elim (add_endpoints-out s.endpoints (blank s)) [
        | inl z ↦ absurd (nonzero_out (ap (λ (t : AdbInterface). t.endpoint_out) e ∙ z))
        | inr has ↦ rw is_given has
      ],
    )

module _ {V : Type 0} (os : Devices V) where
  -- The configuration that is searched: the active one, or the first where that cannot be read.
  abbrev pub config_of : V → ℕ ⊎ List (List AltSetting)
  config_of device = elim (os.active_config device) [
    | inr config ↦ inr config
    | inl code ↦ os.first_config device
  ]

  find_adb_interface-config :
      (device : V) (config : List (List AltSetting))
      → config_of device ≡ inr config
      → find_adb_interface os device ≡ ok (usable (search_interfaces config nothing_found))
  unfolding find_adb_interface
  find_adb_interface-config device config c = at (os.active_config device) refl
    where
      first :
          (code : ℕ) (r : ℕ ⊎ List (List AltSetting))
          → os.active_config device ≡ inl code
          → os.first_config device ≡ r
          → find_adb_interface os device ≡ ok (usable (search_interfaces config nothing_found))
      first code (inl other) e f = absurd (left_right (rw (config_of, e, f) at c))
      first code (inr found) e f =
          let same : found ≡ config = right_right (inr found) refl (rw (config_of, e, f) at c) in
          rw (e, f, same, find_adb_interface)

      at :
          (r : ℕ ⊎ List (List AltSetting))
          → os.active_config device ≡ r
          → find_adb_interface os device ≡ ok (usable (search_interfaces config nothing_found))
      at (inl code) e = first code (os.first_config device) e refl
      at (inr found) e =
          let same : found ≡ config = right_right (inr found) refl (rw (config_of, e) at c) in
          rw (e, same, find_adb_interface)

  -- Where a configuration of the device can be read, an interface that is found is that of an ADB
  -- setting of the configuration, with the addresses of a bulk IN and a bulk OUT endpoint of it.
  pub find_adb_interface-IsAdb :
      (device : V) (config : List (List AltSetting)) (a : AdbInterface)
      → config_of device ≡ inr config
      → find_adb_interface os device ≡ ok (some a)
      → IsAdb config a
  find_adb_interface-IsAdb device config a c h =
      usable-IsAdb config (search_interfaces config nothing_found) a
        (search_interfaces-Searched config)
        (ok_some (sym (find_adb_interface-config device config c) ∙ h))
