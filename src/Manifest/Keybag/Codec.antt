-- ===== src/Manifest/Keybag/Codec.antt =====
-- The format of the keybag of src/ios_rehydrate/manifest.py, and that its parser reads exactly that.
use mathlib.Core.Path.{subst}
use ios_rehydrate.Prelude.{
  ℕ, zero, suc, ◌+◌, ◌*◌, ◌%◌, ◌/◌, ◌≤◌, ◌<◌, ◌≡◌, ◌↔◌, refl, ap, ◌∙◌, true, false, not, ◌||◌, [],
  ◌∷◌, ◌++◌, arith, length, take, drop, is_nil, All, ltb, ◌==◌, length-append, take-append-drop,
  take-length, drop-length, length-take, ltb-false, All-drop,
}
use ios_rehydrate.Prelude.Bytes.{Bytes, IsBytes, big}
use ios_rehydrate.Errors.{
  done, ◌>>=◌, raise_if, raise_if-done, Ensures, Ensures-done, Ensures-raise, Ensures-raise_if,
  Ensures-bind,
}
use ios_rehydrate.Manifest.Keybag.{
  Elements, max_backup_keybag_bytes, max_keybag_element_bytes, max_keybag_elements, is_keybag_tag,
  tlv_from, parse_keybag_tlv,
}

-- A number below 2 ^ 32 as four bytes, the most significant first
abbrev pub big_bytes : ℕ → Bytes
big_bytes n = n / 0x1000000 ∷ n / 0x10000 % 256 ∷ n / 0x100 % 256 ∷ n % 256 ∷ []

-- An element as it stands in a keybag: the tag, the size, the value
abbrev pub encode_element : Bytes × Bytes → Bytes
encode_element (tag, value) = tag ++ big_bytes (length value) ++ value

abbrev pub encode : Elements → Bytes
encode [] = []
encode (e ∷ elements) = encode_element e ++ encode elements

pub record IsElement (e : Bytes × Bytes) : Type 0 where
  pub tag_lem : is_keybag_tag e.0 ≡ true
  pub value_pos : 1 ≤ length e.1
  pub value_bound : length e.1 ≤ max_keybag_element_bytes

-- A keybag within the limits, element by element
pub record IsKeybag (keybag : Bytes) (elements : Elements) : Type 0 where
  pub format : encode elements ≡ keybag
  pub each : All IsElement elements
  pub count : length elements ≤ max_keybag_elements
  pub size_pos : 1 ≤ length keybag
  pub size_bound : length keybag ≤ max_backup_keybag_bytes

big-big_bytes : (n : ℕ) → n < 0x100000000 → big (big_bytes n) ≡ n
big-big_bytes n h = omega arith

big_bytes-big :
    (a b c d : ℕ)
    → a < 256
    → b < 256
    → c < 256
    → d < 256
    → big_bytes (big (a ∷ b ∷ c ∷ d ∷ [])) ≡ a ∷ b ∷ c ∷ d ∷ []
big_bytes-big a b c d ha hb hc hd =
    let e0 : ((a * 256 + b) * 256 + c) * 256 + d ≡ big (a ∷ b ∷ c ∷ d ∷ []) = omega arith in
    let e1 : big (a ∷ b ∷ c ∷ d ∷ []) / 0x1000000 ≡ a = omega arith in
    let e2 : big (a ∷ b ∷ c ∷ d ∷ []) / 0x10000 % 256 ≡ b = omega arith in
    let e3 : big (a ∷ b ∷ c ∷ d ∷ []) / 0x100 % 256 ≡ c = omega arith in
    let e4 : big (a ∷ b ∷ c ∷ d ∷ []) % 256 ≡ d = omega arith in cc

-- What the loop reads from what is left, with the number of elements so far
record IsRead (rest : Bytes) (count : ℕ) (elements : Elements) : Type 0 where
  format : encode elements ≡ rest
  each : All IsElement elements
  bound : count ≤ max_keybag_elements → count + length elements ≤ max_keybag_elements

tlv_from-IsRead :
    (fuel : ℕ) (rest : Bytes) (count : ℕ)
    → IsBytes rest
    → Ensures (IsRead rest count) (tlv_from fuel rest count)
unfolding tlv_from
tlv_from-IsRead zero rest count h = Ensures-raise _
tlv_from-IsRead (suc fuel) [] count h =
    Ensures-done [] (record { format = refl; each = tt; bound = λ b. omega arith })
tlv_from-IsRead (suc fuel) (t0 ∷ t1 ∷ t2 ∷ t3 ∷ a ∷ b ∷ c ∷ d ∷ body) count
      (h0, (h1, (h2, (h3, (ha, (hb, (hc, (hd, h)))))))) =
    Ensures-raise_if _ _ _ λ _.
      Ensures-raise_if
        (not (is_keybag_tag tag)
          || size == 0
          || ltb max_keybag_element_bytes size
          || ltb (length body) size)
        _ _
        λ good. Ensures-raise_if (ltb max_keybag_elements (count + 1)) _ _ λ few.
          Ensures-bind (tlv_from fuel (drop size body) (count + 1)) _ λ elements helements.
            let further =
              (tlv_from-IsRead fuel (drop size body) (count + 1) (All-drop _ size body h)).at
                elements helements in
            let value_lem : length (take size body) ≡ size =
              ground (arith, length-take size body) in
            let tail_lem : take size body ++ encode elements ≡ body =
              ap (λ r. take size body ++ r) further.format ∙ take-append-drop size body in
            let size_lem : big_bytes (length (take size body)) ≡ a ∷ b ∷ c ∷ d ∷ [] =
              ap big_bytes value_lem ∙ big_bytes-big a b c d ha hb hc hd in
            Ensures-done ((tag, take size body) ∷ elements) (record {
              format = cc;
              each = (
                record {
                  tag_lem = ground arith;
                  value_pos = ground (arith, value_lem);
                  value_bound = ground (arith, value_lem);
                },
                further.each,
              );
              bound = λ low. omega (arith, further.bound (ltb-false _ _ few));
            })
  where
    tag : Bytes
    tag = t0 ∷ t1 ∷ t2 ∷ t3 ∷ []

    size : ℕ
    size = big (a ∷ b ∷ c ∷ d ∷ [])
tlv_from-IsRead (suc fuel) (t0 ∷ rest) count h = Ensures-raise_if true _ _ λ e. cc

parse_keybag_tlv_sound :
    (keybag : Bytes) (elements : Elements)
    → IsBytes keybag
    → parse_keybag_tlv keybag ≡ done elements
    → IsKeybag keybag elements
unfolding parse_keybag_tlv
parse_keybag_tlv_sound keybag elements byte h =
    let (sized, rest) =
      raise_if-done (is_nil keybag || ltb max_backup_keybag_bytes (length keybag)) _ _ h in
    let read = (tlv_from-IsRead (length keybag + 1) keybag 0 byte).at elements rest in
    record {
      format = read.format;
      each = read.each;
      count = omega (arith, read.bound (omega arith));
      size_pos = not_nil keybag (ground (arith, sized));
      size_bound = ground (arith, sized);
    }
  where
    not_nil : (bs : Bytes) → is_nil bs ≡ false → 1 ≤ length bs
    not_nil [] e = cc
    not_nil (b ∷ bs) e = omega arith

-- One round on an element within the limits.
tlv_from-step :
    (fuel : ℕ) (t0 t1 t2 t3 : ℕ) (number body : Bytes) (a b c d count size : ℕ)
    → a ∷ b ∷ c ∷ d ∷ [] ≡ number
    → big number ≡ size
    → is_keybag_tag (t0 ∷ t1 ∷ t2 ∷ t3 ∷ []) ≡ true
    → 1 ≤ size
    → size ≤ max_keybag_element_bytes
    → size ≤ length body
    → count + 1 ≤ max_keybag_elements
    → tlv_from (suc fuel) (t0 ∷ t1 ∷ t2 ∷ t3 ∷ a ∷ b ∷ c ∷ d ∷ body) count ≡ (
        tlv_from fuel (drop size body) (count + 1) >>= λ elements.
        done ((t0 ∷ t1 ∷ t2 ∷ t3 ∷ [], take size body) ∷ elements))
unfolding tlv_from ◌>>=◌ raise_if
tlv_from-step fuel t0 t1 t2 t3 number body a b c d count size digits value good low high fits few =
    let e : big (a ∷ b ∷ c ∷ d ∷ []) ≡ size = ap big digits ∙ value in rw e (ground (arith, good))

tlv_from-encode :
    (fuel : ℕ) (elements : Elements) (count : ℕ)
    → All IsElement elements
    → count + length elements ≤ max_keybag_elements
    → length (encode elements) < fuel
    → tlv_from fuel (encode elements) count ≡ done elements
unfolding tlv_from ◌>>=◌
tlv_from-encode zero elements count each few h = absurd (omega arith)
tlv_from-encode (suc fuel) [] count each few h = refl
tlv_from-encode (suc fuel) ((t0 ∷ t1 ∷ t2 ∷ t3 ∷ [], value) ∷ elements) count (e, each) few h =
    let fits : length value < 0x100000000 = omega (arith, e.value_bound) in
    let sum = length-append value (encode elements) in
    tlv_from-step fuel t0 t1 t2 t3 (big_bytes (length value)) (value ++ encode elements) _ _ _ _
      count (length value) refl (big-big_bytes (length value) fits) e.tag_lem e.value_pos
      e.value_bound (omega (arith, sum)) (omega arith)
    ∙ rw
        (
          take-length value (encode elements),
          drop-length value (encode elements),
          tlv_from-encode fuel elements (count + 1) each (omega arith) (omega (arith, sum)),
        )
        refl
tlv_from-encode (suc fuel) ((tag, value) ∷ elements) count (e, each) few h =
    absurd (ground (arith, e.tag_lem))

parse_keybag_tlv_complete :
    (keybag : Bytes) (elements : Elements)
    → IsKeybag keybag elements
    → parse_keybag_tlv keybag ≡ done elements
unfolding parse_keybag_tlv ◌>>=◌ raise_if
parse_keybag_tlv_complete keybag elements k =
    let read =
      tlv_from-encode (length (encode elements) + 1) elements 0 k.each (omega (arith, k.count))
        (omega arith) in
    let here : tlv_from (length keybag + 1) keybag 0 ≡ done elements =
      subst (λ b. tlv_from (length b + 1) b 0 ≡ done elements) k.format read in
    let sized : (is_nil keybag || ltb max_backup_keybag_bytes (length keybag)) ≡ false =
      ground (arith, filled keybag k.size_pos, k.size_bound) in
    rw (sized, here) refl
  where
    filled : (bs : Bytes) → 1 ≤ length bs → is_nil bs ≡ false
    filled [] e = absurd (omega arith)
    filled (b ∷ bs) e = refl

-- On bytes, parse_keybag_tlv returns a list of elements exactly if the keybag is their encoding,
-- each has a tag of four capital letters or digits and a value of 1 to 4,096 bytes, they are at most
-- 256 and together take 1 to 65,536 bytes.
pub parse_keybag_tlv_iff :
    (keybag : Bytes) (elements : Elements)
    → IsBytes keybag
    → (parse_keybag_tlv keybag ≡ done elements) ↔ IsKeybag keybag elements
parse_keybag_tlv_iff keybag elements byte =
    (parse_keybag_tlv_sound keybag elements byte, parse_keybag_tlv_complete keybag elements)
