-- ===== src/Device/Tests.antt =====
-- Two devices, and the selection of src/ios_rehydrate/device.py among them.
use ios_rehydrate.Prelude.{◌≡◌, refl, List, [], ◌∷◌}
use ios_rehydrate.Prelude.Bytes.{Text, codes, eq_text}
use ios_rehydrate.Prelude.Texts.{strip}
use ios_rehydrate.Prelude.Values.{text}
use ios_rehydrate.Errors.{done, ◌>>=◌, raise_if}
use ios_rehydrate.Device.{
  MuxDevice, is_usb_serial, serials, usb_devices, is_selected, resolve_device,
}
use ios_rehydrate.Device.Selection.{IsSelection, resolve_device-IsSelection}

-- Stand-ins for the digest and the folding
abbrev digest : Text → Text
digest _ = codes "00112233445566778899aabbccddeeff"

abbrev folded : Text → Text
folded value = value

abbrev serial : Text
serial = codes "00008030-001A2B3C4D5E6F70"

abbrev devices : List MuxDevice
devices =
    record { connection_type = codes "Network"; serial = text (codes "x") }
    ∷ record { connection_type = codes "USB"; serial = text serial }
    ∷ []

resolved :
    resolve_device digest folded (codes " 00008030-001A2B3C4D5E6F70") (done devices) ≡ done serial
unfolding resolve_device usb_devices serials is_selected is_usb_serial strip eq_text ◌>>=◌ raise_if
resolved = refl

resolve_device-IsSelection_example :
    IsSelection digest folded (codes " 00008030-001A2B3C4D5E6F70") devices serial
resolve_device-IsSelection_example =
    resolve_device-IsSelection digest folded (codes " 00008030-001A2B3C4D5E6F70") devices serial
      resolved
