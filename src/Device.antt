-- ===== src/Device.antt =====
-- src/ios_rehydrate/device.py: which USB device a selector means, and the identity of the opened one. The
-- list that usbmux returns, or what its call raises, is an argument, and so are the digest and the
-- folding of texts; the connection itself is not modelled.
pub mod Selection
mod Tests
use ios_rehydrate.Prelude.{
  ℕ, ⊤, ◌+◌, Bool, true, false, not, ◌&&◌, ◌||◌, Option, none, some, List, [], ◌∷◌, ◌++◌, length,
  take, drop, is_nil, any, all, keep, ◌==◌, ◌!=◌, if◌then◌else◌,
}
use ios_rehydrate.Prelude.Bytes.{Text, codes, eq_text}
use ios_rehydrate.Prelude.Texts.{is_digit, in_range, strip}
use ios_rehydrate.Prelude.Values.{Value, text}
use ios_rehydrate.Errors.{
  Exception, base, error, device_selection, device_unavailable, Result, done, raise, ◌>>=◌, ◌>>◌,
  raise_if,
}
use ios_rehydrate.Privacy.{opaque_ref}

-- `MuxDevice`, as far as the code reads it
pub record MuxDevice : Type 0 where
  pub connection_type : Text
  pub serial : Value

-- `[0-9A-Fa-f]`
abbrev pub is_hexadecimal : ℕ → Bool
is_hexadecimal c = is_digit c || in_range b'A' b'F' c || in_range b'a' b'f' c

-- `_USB_SERIAL.fullmatch(serial) is not None`: 40 digits, or 8 and 16 with a dash between them
unfoldable pub is_usb_serial : Text → Bool
unfolding eq_text
is_usb_serial serial =
    (length serial == 40 && all is_hexadecimal serial)
    || (length serial == 25
        && all is_hexadecimal (take 8 serial)
        && eq_text (take 1 (drop 8 serial)) (codes "-")
        && all is_hexadecimal (drop 9 serial))

-- The serial of a device record, if it is a text of that form
abbrev pub serial_of : Value → Option Text
serial_of (text serial) = if is_usb_serial serial then some serial else none
serial_of _ = none

-- The devices of the list, by their serials; `none` if one of them is invalid.
unfoldable pub serials : List MuxDevice → Option (List Text)
serials [] = some []
serials (device ∷ devices) = elim (serial_of device.serial) [
  | none ↦ none
  | some serial ↦ elim (serials devices) [ none ↦ none | some rest ↦ some (serial ∷ rest) ]
]

abbrev pub is_usb : MuxDevice → Bool
is_usb device = eq_text device.connection_type (codes "USB")

abbrev pub accepted_serials : Option (List Text) → Result (List Text)
accepted_serials none = raise (error device_unavailable "USBMUX_DEVICE_RECORD_INVALID")
accepted_serials (some found) = done found

-- `except Exception`
abbrev pub discovered : Result (List MuxDevice) → Result (List MuxDevice)
discovered (done devices) = done devices
discovered (raise base) = raise base
discovered (raise _) = raise (error device_unavailable "USBMUX_DISCOVERY_FAILED")

-- `_usb_devices`, as the list of the serials
unfoldable pub usb_devices : Result (List MuxDevice) → Result (List Text)
unfolding eq_text
usb_devices listed = do
  devices ← discovered listed
  accepted_serials (serials (keep is_usb devices))

module _ (sha256 : Text → Text) (casefold : Text → Text) where
  -- `_device_ref`, which is `device_reference` of src/ios_rehydrate/privacy.py
  abbrev pub device_ref : Text → Text
  device_ref serial = opaque_ref sha256 (codes "device") (casefold serial)

  -- `exact_serial or exact_reference`
  unfoldable pub is_selected : Text → Text → Bool
  is_selected normalized serial =
      eq_text normalized serial || eq_text normalized (device_ref serial)

  abbrev pub sole_device : List Text → Result Text
  sole_device [] = raise (error device_selection "DEVICE_SELECTOR_NO_MATCH")
  sole_device (serial ∷ []) = done serial
  sole_device (serial ∷ other ∷ rest) = raise (error device_selection "DEVICE_SELECTOR_AMBIGUOUS")

  unfoldable pub resolve_device : Text → Result (List MuxDevice) → Result Text
  unfolding strip
  resolve_device selector listed = do
    let normalized = strip selector
    raise_if (is_nil normalized) (error device_selection "DEVICE_SELECTOR_REQUIRED")
    devices ← usb_devices listed
    sole_device (keep (is_selected normalized) devices)

  -- The test of the opened device; `opened` is its `udid`, if it has one.
  unfoldable pub check_identity : Text → Option Value → Result ⊤
  unfolding eq_text
  check_identity serial (some (text opened)) =
      raise_if (not (is_usb_serial opened) || not (eq_text (casefold opened) (casefold serial)))
        (error device_unavailable "LOCKDOWN_IDENTITY_MISMATCH")
  check_identity serial _ = raise (error device_unavailable "LOCKDOWN_IDENTITY_MISMATCH")
