-- ===== src/Device/Selection.antt =====
-- The device that a selector of src/ios_rehydrate/device.py selects.
use mathlib.Core.Path.{subst}
use ios_rehydrate.Prelude.{
  ◌≡◌, ◌⊎◌, inl, inr, refl, ap, Bool, true, false, Option, none, some, List, [], ◌∷◌, arith, All,
  is_nil, keep, Bool-cases,
}
use ios_rehydrate.Prelude.Bytes.{Text, eq_text, eq_text→eq}
use ios_rehydrate.Prelude.Texts.{strip}
use ios_rehydrate.Prelude.Values.{Value, text}
use ios_rehydrate.Errors.{done, ◌>>=◌, Ensures, Ensures-raise_if, Ensures-bind}
use ios_rehydrate.Device.{
  MuxDevice, is_usb, is_usb_serial, serial_of, serials, accepted_serials, usb_devices, device_ref,
  is_selected, sole_device, resolve_device,
}

-- A record of a USB device with this serial, which has the form of one
pub record HasSerial (serial : Text) (device : MuxDevice) : Type 0 where
  pub usb : is_usb device ≡ true
  pub serial_lem : device.serial ≡ text serial
  pub form : is_usb_serial serial ≡ true

-- The serials, record by record
abbrev pub AreSerials : List MuxDevice → List Text → Type 0
AreSerials [] [] = Unit
AreSerials (device ∷ devices) (serial ∷ rest) = HasSerial serial device × AreSerials devices rest
AreSerials _ _ = ⊥

-- The chosen serial is in the list, at one place, and the test rejects all others.
abbrev pub Picks : (Text → Bool) → Text → List Text → Type 0
Picks p chosen [] = ⊥
Picks p chosen (serial ∷ rest) =
    ((p serial ≡ true) × (serial ≡ chosen) × All (λ other. p other ≡ false) rest)
    ⊎ ((p serial ≡ false) × Picks p chosen rest)

keep-none :
    (p : Text → Bool) (found : List Text) → keep p found ≡ [] → All (λ other. p other ≡ false) found
keep-none p [] h = tt
keep-none p (serial ∷ rest) h = elim (Bool-cases (p serial)) [
  | inl t ↦ absurd (filled (rw t at h))
  | inr t ↦ (t, keep-none p rest (rw t at h))
]
  where
    filled : serial ∷ keep p rest ≡ [] → ⊥
    filled e = cc

keep-Picks :
    (p : Text → Bool) (chosen : Text) (found : List Text)
    → keep p found ≡ chosen ∷ []
    → Picks p chosen found
keep-Picks p chosen [] h = cc
keep-Picks p chosen (serial ∷ rest) h = elim (Bool-cases (p serial)) [
  | inl t ↦
      let e : serial ∷ keep p rest ≡ chosen ∷ [] = rw t at h in inl (t, cc, keep-none p rest (cc))
  | inr t ↦ inr (t, keep-Picks p chosen rest (rw t at h))
]

serial_of-HasSerial :
    (device : MuxDevice) (serial : Text)
    → is_usb device ≡ true
    → serial_of device.serial ≡ some serial
    → HasSerial serial device
serial_of-HasSerial device serial usb h =
    let (e, f) = read device.serial h in record { usb = usb; serial_lem = e; form = f }
  where
    read :
        (value : Value)
        → serial_of value ≡ some serial
        → (value ≡ text serial) × (is_usb_serial serial ≡ true)
    read (text found) h = elim (Bool-cases (is_usb_serial found)) [
      | inl t ↦
          let e : some found ≡ some serial = rw t at h in
          let same : found ≡ serial = cc in (ap text same, rw same at t)
      | inr t ↦ let e : none ≡ some serial = rw t at h in cc
    ]
    read _ h = cc

serials-AreSerials :
    (devices : List MuxDevice) (found : List Text)
    → All (λ d. is_usb d ≡ true) devices
    → serials devices ≡ some found
    → AreSerials devices found
unfolding serials
serials-AreSerials [] [] usb h = tt
serials-AreSerials [] (f ∷ found) usb h = cc
serials-AreSerials (device ∷ devices) found (u, usb) h =
    joined (serial_of device.serial) (serials devices) refl
      (λ rest e. serials-AreSerials devices rest usb e) refl h
  where
    joined :
        (o : Option Text) (r : Option (List Text))
        → serial_of device.serial ≡ o
        → ((rest : List Text) → serials devices ≡ some rest → AreSerials devices rest)
        → serials devices ≡ r
        → elim o [
          | none ↦ none
          | some serial ↦ elim r [ none ↦ none | some rest ↦ some (serial ∷ rest) ]
        ]
          ≡ some found
        → AreSerials (device ∷ devices) found
    joined none r eo further er e = cc
    joined (some serial) none eo further er e = cc
    joined (some serial) (some rest) eo further er e =
        let same : serial ∷ rest ≡ found = cc in
        subst (AreSerials (device ∷ devices)) same
          (serial_of-HasSerial device serial u eo, further rest er)

keep-All : (devices : List MuxDevice) → All (λ d. is_usb d ≡ true) (keep is_usb devices)
keep-All [] = tt
keep-All (device ∷ devices) = elim (Bool-cases (is_usb device)) [
  | inl t ↦ rw t (t, keep-All devices)
  | inr t ↦ rw t (keep-All devices)
]

-- What a resolved selector means
pub record IsSelection (sha256 casefold : Text → Text) (selector : Text) (devices : List MuxDevice)
    (serial : Text) : Type 0 where
  pub asked : is_nil (strip selector) ≡ false
  pub found : List Text
  pub each : AreSerials (keep is_usb devices) found
  pub picked : Picks (is_selected sha256 casefold (strip selector)) serial found
  pub named : (strip selector ≡ serial) ⊎ (strip selector ≡ device_ref sha256 casefold serial)

module _ (sha256 casefold : Text → Text) where
  Picks-selected :
      (p : Text → Bool) (chosen : Text) (found : List Text) → Picks p chosen found → p chosen ≡ true
  Picks-selected p chosen [] h = absurd h
  Picks-selected p chosen (serial ∷ rest) (inl (t, e, _)) = rw e at t
  Picks-selected p chosen (serial ∷ rest) (inr (_, h)) = Picks-selected p chosen rest h

  is_selected-names :
      (normalized serial : Text)
      → is_selected sha256 casefold normalized serial ≡ true
      → (normalized ≡ serial) ⊎ (normalized ≡ device_ref sha256 casefold serial)
  unfolding is_selected
  is_selected-names normalized serial h = elim (Bool-cases (eq_text normalized serial)) [
    | inl t ↦ inl (eq_text→eq normalized serial t)
    | inr t ↦ inr (eq_text→eq normalized _ (ground (arith, h, t)))
  ]

  sole_device-done :
      (found : List Text) (serial : Text)
      → sole_device sha256 casefold found ≡ done serial
      → found ≡ serial ∷ []
  sole_device-done [] serial h = cc
  sole_device-done (s ∷ []) serial h = cc
  sole_device-done (s ∷ t ∷ rest) serial h = cc

  accepted_serials-done :
      (o : Option (List Text)) (found : List Text)
      → accepted_serials o ≡ done found
      → o ≡ some found
  accepted_serials-done none found h = cc
  accepted_serials-done (some f) found h = cc

  usb_devices-AreSerials :
      (devices : List MuxDevice) (found : List Text)
      → usb_devices (done devices) ≡ done found
      → AreSerials (keep is_usb devices) found
  unfolding usb_devices ◌>>=◌
  usb_devices-AreSerials devices found h =
      serials-AreSerials (keep is_usb devices) found (keep-All devices)
        (accepted_serials-done (serials (keep is_usb devices)) found h)

  -- If resolve_device returns a device for a list of records, the selector is not blank and equals
  -- its serial or its opaque reference, it is the only one among the USB devices that the selector
  -- matches, and the serial of each of these has the form of one.
  pub resolve_device-IsSelection :
      (selector : Text) (devices : List MuxDevice) (serial : Text)
      → resolve_device sha256 casefold selector (done devices) ≡ done serial
      → IsSelection sha256 casefold selector devices serial
  unfolding resolve_device
  resolve_device-IsSelection selector devices = Ensures.at (
      Ensures-raise_if (is_nil (strip selector)) _ _ λ asked.
        Ensures-bind (usb_devices (done devices)) _ λ found hfound. record {
          at = λ serial h.
              let picked =
                keep-Picks (is_selected sha256 casefold (strip selector)) serial found
                  (sole_device-done _ serial h) in
              record {
                asked = asked;
                found = found;
                each = usb_devices-AreSerials devices found hfound;
                picked = picked;
                named =
                    is_selected-names (strip selector) serial
                      (Picks-selected _ serial found picked);
              };
        })
