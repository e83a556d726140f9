-- ===== src/Privacy.antt =====
-- src/ios_rehydrate/privacy.py: opaque references. `sha256` stands for
-- `hashlib.sha256(text.encode()).hexdigest()`.
use ios_rehydrate.Prelude.{◌++◌, take}
use ios_rehydrate.Prelude.Bytes.{Text, codes}

unfoldable pub opaque_ref : (Text → Text) → Text → Text → Text
opaque_ref sha256 namespace value =
    namespace
    ++ (codes "_"
        ++ take 12 (sha256 (codes "ios-rehydrate:" ++ (namespace ++ (codes ":" ++ value)))))
