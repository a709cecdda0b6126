-- ===== src/Usb/Endpoints.antt =====
-- Which endpoints of an ADB setting the search of src/usb/usb_transport.cpp takes.
use mathlib.Core.List.{Memᴰ}
use adbcpp.Base.{ℕ, ◌≡◌, refl, sym, ◌⊎◌, inl, inr, Bool, true, false, Bool-cases, List, [], ◌∷◌}
use adbcpp.Usb.Devices.{Endpoint, AdbInterface, is_bulk, is_in, add_endpoints}

-- An endpoint of a setting: a bulk endpoint of the direction.
abbrev pub HasEndpoint : List Endpoint → Bool → ℕ → Type 0
HasEndpoint endpoints direction address =
    (e : Endpoint) × Memᴰ e endpoints
    × (is_bulk e ≡ true)
    × (is_in e ≡ direction)
    × (e.b_endpoint_address ≡ address)

HasEndpoint-tail :
    {e : Endpoint} {endpoints : List Endpoint} {direction : Bool} {a b : ℕ}
    → (a ≡ b) ⊎ HasEndpoint endpoints direction a
    → (a ≡ b) ⊎ HasEndpoint (e ∷ endpoints) direction a
HasEndpoint-tail (inl h) = inl h
HasEndpoint-tail (inr (f, m, bulk, way, at)) = inr (f, Memᴰ.tail m, bulk, way, at)

HasEndpoint-head :
    {e : Endpoint} {endpoints : List Endpoint} {direction : Bool} {a b : ℕ}
    → is_bulk e ≡ true
    → is_in e ≡ direction
    → (a ≡ e.b_endpoint_address) ⊎ HasEndpoint endpoints direction a
    → (a ≡ b) ⊎ HasEndpoint (e ∷ endpoints) direction a
HasEndpoint-head {e} bulk way (inl h) = inr (e, Memᴰ.head refl, bulk, way, sym h)
HasEndpoint-head bulk way (inr (f, m, b, w, at)) = inr (f, Memᴰ.tail m, b, w, at)

-- What the endpoints of a setting give: an address of the setting, or what was there before.
pub add_endpoints-in :
    (endpoints : List Endpoint) (found : AdbInterface)
    → ((add_endpoints endpoints found).endpoint_in ≡ found.endpoint_in)
      ⊎ HasEndpoint endpoints true (add_endpoints endpoints found).endpoint_in
add_endpoints-in [] found = inl refl
add_endpoints-in (e ∷ rest) found = elim (Bool-cases (is_bulk e)) [
  | inr other ↦ rw (other, add_endpoints) (HasEndpoint-tail (add_endpoints-in rest found))
  | inl bulk ↦ elim (Bool-cases (is_in e)) [
    | inr out ↦ rw (bulk, out, add_endpoints) (HasEndpoint-tail (add_endpoints-in rest _))
    | inl into ↦
        rw (bulk, into, add_endpoints) (HasEndpoint-head bulk into (add_endpoints-in rest _))
  ]
]

pub add_endpoints-out :
    (endpoints : List Endpoint) (found : AdbInterface)
    → ((add_endpoints endpoints found).endpoint_out ≡ found.endpoint_out)
      ⊎ HasEndpoint endpoints false (add_endpoints endpoints found).endpoint_out
add_endpoints-out [] found = inl refl
add_endpoints-out (e ∷ rest) found = elim (Bool-cases (is_bulk e)) [
  | inr other ↦ rw (other, add_endpoints) (HasEndpoint-tail (add_endpoints-out rest found))
  | inl bulk ↦ elim (Bool-cases (is_in e)) [
    | inr out ↦ rw (bulk, out, add_endpoints) (HasEndpoint-head bulk out (add_endpoints-out rest _))
    | inl into ↦ rw (bulk, into, add_endpoints) (HasEndpoint-tail (add_endpoints-out rest _))
  ]
]

pub add_endpoints-number :
    (endpoints : List Endpoint) (found : AdbInterface)
    → (add_endpoints endpoints found).number ≡ found.number
add_endpoints-number [] found = refl
add_endpoints-number (e ∷ rest) found = elim (Bool-cases (is_bulk e)) [
  | inr other ↦ rw (other, add_endpoints) (add_endpoints-number rest found)
  | inl bulk ↦ elim (Bool-cases (is_in e)) [
    | inr out ↦ rw (bulk, out, add_endpoints) (add_endpoints-number rest _)
    | inl into ↦ rw (bulk, into, add_endpoints) (add_endpoints-number rest _)
  ]
]
