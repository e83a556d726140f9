-- ===== src/Ipa/Validate/Agreement.antt =====
-- What a payload that src/ios_rehydrate/ipa.py validates says of its archive and of what was expected.
use ios_rehydrate.Prelude.{
  ◌≡◌, refl, sym, ap, true, false, not, Option, none, some, List, ◌∷◌, ◌++◌, ◌==◌, arith, length,
  is_nil,
}
use ios_rehydrate.Prelude.Bytes.{Bytes, Text, codes, eq_text, eq_text→eq}
use ios_rehydrate.Prelude.Values.{Fields, text, get}
use ios_rehydrate.Errors.{
  done, Ensures, Ensures-done, Ensures-raise_if, Ensures-bind, raise_if-done, raise_if-passes,
}
use ios_rehydrate.Ipa.Payload.{ValidatedIpa}
use ios_rehydrate.Ipa.Shape.{ZipInfo}
use ios_rehydrate.Ipa.Contents.{
  Contents, max_sinf_bytes, member_named, is_bundle_identifier, is_version_value,
  is_minimum_os_value, is_decimal, required_member, required_text, app_root, metadata_store_id,
  check_store_id, check_bundle, read_member, read_plist, info_reasons, metadata_reasons,
}
use ios_rehydrate.Ipa.Validate.Reads.{
  required_text-get, required_member-named, read_member-IsWhole, IsMember, IsPlist,
  read_plist-IsPlist,
}
use ios_rehydrate.Ipa.Validate.{
  Versions, validate_bundle, validate_versions, validate_executable, validate_signatures,
  validate_zip,
}

-- What was found is what was expected, if something was.
abbrev pub IsExpected : Option Text → Option Text → Type 0
IsExpected none found = Unit
IsExpected (some expected) found = found ≡ some expected

pub record IsBundle (info metadata : Fields) (bundle_identifier : Text) : Type 0 where
  pub of_app : get (codes "CFBundleIdentifier") info ≡ some (text bundle_identifier)
  pub of_metadata : get (codes "softwareVersionBundleId") metadata ≡ some (text bundle_identifier)
  pub form : is_bundle_identifier bundle_identifier ≡ true

check_bundle-IsExpected :
    (expected : Option Text) (bundle_identifier : Text)
    → check_bundle expected bundle_identifier ≡ done tt
    → IsExpected expected (some bundle_identifier)
unfolding check_bundle
check_bundle-IsExpected none bundle_identifier h = tt
check_bundle-IsExpected (some expected) bundle_identifier h =
    let (_, further) = raise_if-done (not (is_bundle_identifier expected)) _ _ h in
    let same = raise_if-passes (not (eq_text bundle_identifier expected)) _ further in
    ap (λ (t : Text). some t) (eq_text→eq bundle_identifier expected (ground (arith, same)))

check_store_id-IsExpected :
    (expected store_id : Option Text)
    → check_store_id expected store_id ≡ done tt
    → IsExpected expected store_id
unfolding check_store_id
check_store_id-IsExpected none store_id h = tt
check_store_id-IsExpected (some expected) none h = absurd (ground (arith, h))
check_store_id-IsExpected (some expected) (some store_id) h =
    let (_, further) = raise_if-done (not (is_decimal expected)) _ _ h in
    let same = raise_if-passes (not (eq_text store_id expected)) _ further in
    ap (λ (t : Text). some t) (eq_text→eq store_id expected (ground (arith, same)))

validate_bundle-IsBundle :
    (info metadata : Fields) (expected : Option Text)
    → Ensures
        (λ bundle. IsBundle info metadata bundle × IsExpected expected (some bundle))
        (validate_bundle info metadata expected)
unfolding validate_bundle
validate_bundle-IsBundle info metadata expected =
    Ensures-bind (required_text info (codes "CFBundleIdentifier") "IPA_BUNDLE_ID_INVALID" 255) _
      λ bundle hb.
        Ensures-bind
          (required_text metadata (codes "softwareVersionBundleId") "IPA_METADATA_BUNDLE_ID_INVALID"
            255)
          _
          λ other ho. Ensures-raise_if (not (eq_text other bundle)) _ _ λ same.
            Ensures-raise_if (not (is_bundle_identifier bundle)) _ _ λ form.
              Ensures-bind (check_bundle expected bundle) _ λ _ checked.
                let e : other ≡ bundle = eq_text→eq other bundle (ground (arith, same)) in
                Ensures-done bundle (
                  record {
                    of_app = (required_text-get info _ _ 255).at bundle hb;
                    of_metadata = rw (sym e) ((required_text-get metadata _ _ 255).at other ho);
                    form = ground (arith, form);
                  },
                  check_bundle-IsExpected expected bundle checked,
                )

-- The versions that the property list of the app states, in their forms
pub record AreVersions (info : Fields) (versions : Versions) : Type 0 where
  pub version_lem : get (codes "CFBundleShortVersionString") info ≡ some (text versions.version)
  pub build_lem : get (codes "CFBundleVersion") info ≡ some (text versions.build)
  pub minimum_os_lem : get (codes "MinimumOSVersion") info ≡ some (text versions.minimum_os)
  pub version_form : is_version_value versions.version ≡ true
  pub build_form : is_version_value versions.build ≡ true
  pub minimum_os_form : is_minimum_os_value versions.minimum_os ≡ true

validate_versions-AreVersions :
    (info : Fields) → Ensures (AreVersions info) (validate_versions info)
unfolding validate_versions
validate_versions-AreVersions info = Ensures-bind (required_text info _ _ 64) _ λ version hv.
    Ensures-raise_if (not (is_version_value version)) _ _ λ v.
      Ensures-bind (required_text info _ _ 64) _ λ build hb.
        Ensures-raise_if (not (is_version_value build)) _ _ λ b.
          Ensures-bind (required_text info _ _ 64) _ λ minimum_os hm.
            Ensures-raise_if (not (is_minimum_os_value minimum_os)) _ _ λ m.
              Ensures-done _ (record {
                version_lem = (required_text-get info _ _ 64).at version hv;
                build_lem = (required_text-get info _ _ 64).at build hb;
                minimum_os_lem = (required_text-get info _ _ 64).at minimum_os hm;
                version_form = ground (arith, v);
                build_form = ground (arith, b);
                minimum_os_form = ground (arith, m);
              })

-- The executable that the property list of the app names is a member with content.
pub record IsExecutable (members : List ZipInfo) (root : Text) (info : Fields) (executable : Text)
    : Type 0 where
  pub stated : get (codes "CFBundleExecutable") info ≡ some (text executable)
  pub member : ZipInfo
  pub named : member_named (root ++ (b'/' ∷ executable)) members ≡ some member
  pub filled : member.file_size == 0 ≡ false

validate_executable-IsExecutable :
    (members : List ZipInfo) (root : Text) (info : Fields)
    → Ensures (IsExecutable members root info) (validate_executable members root info)
unfolding validate_executable
validate_executable-IsExecutable members root info =
    Ensures-bind (required_text info _ _ 255) _ λ executable he. Ensures-raise_if _ _ _ λ _.
      Ensures-bind (required_member members _ _) _ λ member hm.
        Ensures-raise_if (member.file_size == 0) _ _ λ filled. Ensures-done executable (record {
          stated = (required_text-get info _ _ 255).at executable he;
          member = member;
          named = (required_member-named members _ _).at member hm;
          filled = filled;
        })

module _ (contents : Contents) where
  -- The authorization material of the executable, not empty
  abbrev pub sinf_name : Text → Text → Text
  sinf_name root executable = root ++ (codes "/SC_Info/" ++ (executable ++ codes ".sinf"))

  validate_signatures-reads :
      (members : List ZipInfo) (root executable : Text)
      → Ensures
          (λ sinf.
            IsMember contents members (sinf_name root executable) max_sinf_bytes sinf
            × (is_nil sinf ≡ false))
          (validate_signatures contents members root executable)
  unfolding validate_signatures
  validate_signatures-reads members root executable =
      Ensures-bind (required_member members _ _) _ λ sinf_member hm.
        Ensures-bind (read_member contents sinf_member _ _ _) _ λ sinf hs.
          Ensures-raise_if (is_nil sinf) _ _ λ filled.
            Ensures-bind (required_member members _ _) _ λ code_resources _.
              Ensures-raise_if _ _ _ λ _. Ensures-done sinf (
                record {
                  info = sinf_member;
                  named = (required_member-named members _ _).at sinf_member hm;
                  whole = (read_member-IsWhole contents sinf_member _ _ _).at sinf hs;
                },
                filled,
              )

  -- A validated payload: its archive and digest, what the two property lists of the archive say, the
  -- authorization material, and what was expected.
  pub record IsAgreed (sha256_bytes : Bytes → Text) (members : List ZipInfo) (archive_bytes : Bytes)
      (expected_bundle_id expected_store_id : Option Text) (payload : ValidatedIpa) : Type 0 where
    pub archive_lem : payload.archive_bytes ≡ archive_bytes
    pub sha256_lem : payload.sha256 ≡ sha256_bytes archive_bytes
    pub size_lem : payload.size ≡ length archive_bytes
    pub root : Text
    pub rooted : app_root members ≡ done root
    pub info_bytes : Bytes
    pub info : Fields
    pub info_plist : IsPlist contents members (root ++ codes "/Info.plist") info_bytes info
    pub metadata : Fields
    pub metadata_plist :
        IsPlist contents members (codes "iTunesMetadata.plist") payload.metadata metadata
    pub bundle : IsBundle info metadata payload.bundle_identifier
    pub versions : AreVersions info (record {
      version = payload.version;
      build = payload.build;
      minimum_os = payload.minimum_os;
    })
    pub executable : Text
    pub executes : IsExecutable members root info executable
    pub sinf_member :
        IsMember contents members (sinf_name root executable) max_sinf_bytes payload.sinf
    pub authorized : is_nil payload.sinf ≡ false
    pub store_lem : metadata_store_id (get (codes "itemId") metadata) ≡ done payload.store_id
    pub expected_bundle : IsExpected expected_bundle_id (some payload.bundle_identifier)
    pub expected_store : IsExpected expected_store_id payload.store_id

  -- A payload that validate_zip returns has the bytes, the digest and the size of the archive.
  -- Info.plist under the root of the app and iTunesMetadata.plist were read whole and decoded, the
  -- second being the metadata that it carries, and both name its well-formed identifier; its
  -- versions are those of Info.plist, in their forms. The executable that Info.plist names is a
  -- member with content, and the authorization material is what was read whole for it, not empty.
  -- The store identifier is that of the metadata, and both identifiers are the expected ones where
  -- any are expected.
  pub validate_zip-IsAgreed :
      (sha256_bytes : Bytes → Text) (members : List ZipInfo) (archive_bytes : Bytes)
      (expected_bundle_id expected_store_id : Option Text) (payload : ValidatedIpa)
      → validate_zip contents sha256_bytes members archive_bytes expected_bundle_id
          expected_store_id
        ≡ done payload
      → IsAgreed sha256_bytes members archive_bytes expected_bundle_id expected_store_id payload
  unfolding validate_zip
  validate_zip-IsAgreed sha256_bytes members archive_bytes expected_bundle_id expected_store_id =
      Ensures.at (
        Ensures-bind (app_root members) _ λ root rooted.
          Ensures-bind (required_member members _ _) _ λ info_member hi.
            let info_named = (required_member-named members _ _).at info_member hi in
            Ensures-bind (read_plist contents info_member info_reasons) _ λ i read_i.
              Ensures-bind (required_member members _ _) _ λ metadata_member hmm.
                let metadata_named = (required_member-named members _ _).at metadata_member hmm in
                Ensures-bind (read_plist contents metadata_member metadata_reasons) _ λ m read_m.
                  Ensures-bind (validate_bundle i.1 m.1 expected_bundle_id) _ λ bundle hb.
                    let (named, expected) =
                      (validate_bundle-IsBundle i.1 m.1 expected_bundle_id).at bundle hb in
                    Ensures-bind (validate_versions i.1) _ λ versions hv.
                      let forms = (validate_versions-AreVersions i.1).at versions hv in
                      Ensures-bind (validate_executable members root i.1) _ λ executable hx.
                        Ensures-bind (validate_signatures contents members root executable) _
                          λ sinf hs.
                            let (authority, authorized) =
                              (validate_signatures-reads members root executable).at sinf hs in
                            Ensures-bind (metadata_store_id (get (codes "itemId") m.1)) _
                              λ store_id hstore.
                                Ensures-bind (check_store_id expected_store_id store_id) _
                                  λ _ checked. Ensures-done _ (record {
                                    archive_lem = refl;
                                    sha256_lem = refl;
                                    size_lem = refl;
                                    root = root;
                                    rooted = rooted;
                                    info_bytes = i.0;
                                    info = i.1;
                                    info_plist =
                                        (read_plist-IsPlist contents members _ info_member
                                            info_reasons info_named).at
                                          i read_i;
                                    metadata = m.1;
                                    metadata_plist =
                                        (read_plist-IsPlist contents members _ metadata_member
                                            metadata_reasons metadata_named).at
                                          m read_m;
                                    bundle = named;
                                    versions = record {
                                      version_lem = forms.version_lem;
                                      build_lem = forms.build_lem;
                                      minimum_os_lem = forms.minimum_os_lem;
                                      version_form = forms.version_form;
                                      build_form = forms.build_form;
                                      minimum_os_form = forms.minimum_os_form;
                                    };
                                    executable = executable;
                                    executes =
                                        (validate_executable-IsExecutable members root i.1).at
                                          executable hx;
                                    sinf_member = authority;
                                    authorized = authorized;
                                    store_lem = hstore;
                                    expected_bundle = expected;
                                    expected_store =
                                        check_store_id-IsExpected expected_store_id store_id
                                          checked;
                                  }))
