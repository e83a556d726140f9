-- ===== src/Ipa.antt =====
-- src/ios_rehydrate/ipa.py: the bounded validation of an IPA archive. The archive is parsed from its
-- bytes; what `zipfile`, `zlib`, `plistlib`, `hashlib` and the text codecs do is a parameter.
pub mod Payload
pub mod Struct
pub mod Refusal
pub mod Directory
pub mod Extra
pub mod Names
pub mod Entry
pub mod Ranges
pub mod Inflate
pub mod Preflight
pub mod Shape
pub mod Contents
pub mod Validate
pub mod Admission
mod Tests
