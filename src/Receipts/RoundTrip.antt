-- ===== src/Receipts/RoundTrip.antt =====
-- A receipt of src/ios_rehydrate/receipts.py that is written and then read.
use ios_rehydrate.Prelude.{
  ℕ, zero, suc, ◌+◌, ◌≤◌, ◌<◌, ⊤, ◌≡◌, refl, ap, ◌∙◌, true, false, Option, List, [], ◌∷◌, length,
  take, ltb, ◌!=◌, arith,
}
use ios_rehydrate.Prelude.Bytes.{Bytes, Text, eq_text, eq_text_refl}
use ios_rehydrate.Prelude.Values.{ℤ, dict, Fields, get}
use ios_rehydrate.Errors.{Result, done, ◌>>=◌, raise_if}
use ios_rehydrate.Receipts.Files.{Identity, same, World, Process, Environment, stat_of}
use ios_rehydrate.Receipts.{Reservation, max_receipt_bytes}
use ios_rehydrate.Receipts.Removal.{IsQuietBefore}
use ios_rehydrate.Receipts.Loop.{IsPlain, IsRespectful}
use ios_rehydrate.Receipts.Reserve.{Ancestor, write_new_receipt, envelope}
use ios_rehydrate.Receipts.Exclusive.{made, closed, write_new_receipt-IsStored}
use ios_rehydrate.Receipts.Reading.{
  Answers, Loaded, loaded, Moment, max_receipt_future_skew, is_plain_file, read_up_to, read_file,
  says, matches_workflow, created_at, is_stale, read_receipt,
}

-- What the calls of `read_receipt` return for a file that nobody else touches.
abbrev pub answers_of : World → Identity → Answers
answers_of world i = record {
  lstat = done (stat_of world i);
  opening = done tt;
  fstat = done (stat_of world i);
  content = done (world.at i).content;
}

!=_refl : (n : ℕ) → (n != n) ≡ false
!=_refl n = ground arith

same_refl : (i : Identity) → same i i ≡ true
same_refl i = ground arith

take_enough : {A : Type 0} (n : ℕ) (xs : List A) → length xs ≤ n → take n xs ≡ xs
take_enough zero [] h = refl
take_enough (suc n) [] h = refl
take_enough zero (x ∷ xs) h = ground arith
take_enough (suc n) (x ∷ xs) h = ap (λ (r : List _). x ∷ r) (take_enough n xs (omega arith))

read_up_to_all : (xs : Bytes) → length xs ≤ max_receipt_bytes → read_up_to xs ≡ xs
unfolding read_up_to
read_up_to_all xs h = take_enough (max_receipt_bytes + 1) xs (omega arith)

stat-plain :
    (world : World) (i : Identity)
    → IsPlain (world.at i)
    → 0 < length (world.at i).content
    → length (world.at i).content ≤ max_receipt_bytes
    → is_plain_file (stat_of world i) ≡ true
stat-plain world i plain not_empty bounded = ground (arith, plain)

read_file_plain :
    (world : World) (i : Identity)
    → IsPlain (world.at i)
    → 0 < length (world.at i).content
    → length (world.at i).content ≤ max_receipt_bytes
    → read_file (answers_of world i) ≡ done (length (world.at i).content, (world.at i).content)
unfolding read_file ◌>>=◌ raise_if
read_file_plain world i plain not_empty bounded =
    rw
      (
        stat-plain world i plain not_empty bounded,
        same_refl i,
        read_up_to_all (world.at i).content bounded,
      )
      refl

envelope_matches :
    (version now kind : Text) (evidence : Fields)
    → matches_workflow version kind (envelope version now kind evidence) ≡ true
unfolding matches_workflow envelope says get
envelope_matches version now kind evidence = ground (arith, eq_text_refl version, eq_text_refl kind)

module _ (loads : Bytes → Loaded) (from_iso : Text → Result Moment) (sha256 : Bytes → Text)
    (version : Text) (kind : Text) (max_age : Option ℤ) (now : ℕ) (stamp : Text) (created : ℕ)
    (evidence : Fields)
    (dated : from_iso stamp ≡ done (record { aware = true; utc = done created }))
    (timely : created ≤ now + max_receipt_future_skew)
    (fresh : is_stale max_age created now ≡ false) where
  created_envelope : created_at from_iso (envelope version stamp kind evidence) ≡ done created
  unfolding created_at envelope get ◌>>=◌ raise_if eq_text
  created_envelope = rw dated refl

  timely_test : ltb (now + max_receipt_future_skew) created ≡ false
  timely_test = ground arith

  read_written :
      (world : World) (i : Identity)
      → IsPlain (world.at i)
      → 0 < length (world.at i).content
      → length (world.at i).content ≤ max_receipt_bytes
      → loads (world.at i).content ≡ loaded (dict (envelope version stamp kind evidence))
      → read_receipt loads from_iso sha256 version (answers_of world i) kind max_age now
        ≡ done (envelope version stamp kind evidence, sha256 (world.at i).content)
  unfolding read_receipt ◌>>=◌ raise_if
  read_written world i plain not_empty bounded decoded =
      rw
        (
          read_file_plain world i plain not_empty bounded,
          !=_refl (length (world.at i).content),
          decoded,
          envelope_matches version stamp kind evidence,
          created_envelope,
          timely_test,
          fresh,
        )
        refl

  abbrev stored_as : Bytes → Result (Fields × Text)
  stored_as bytes = done (envelope version stamp kind evidence, sha256 bytes)

  -- Suppose that other processes leave the created inode alone, and the path between the last check
  -- and the end, that write_new_receipt returns, and that its bytes decode to an envelope of the
  -- given workflow and version whose time parses, is not too far in the future and not stale. Then
  -- read_receipt on the created file returns that envelope and the digest of those bytes.
  pub write-read :
      (env : Environment) (p : Process)
      → IsRespectful env (made env p)
      → (upper : Text → Text) (leaf : Text) (ancestors : List (Result Ancestor))
        (resolved : Result ⊤) (bytes : Bytes) (r : Reservation)
      → loads bytes ≡ loaded (dict (envelope version stamp kind evidence))
      → let written = write_new_receipt env upper leaf ancestors resolved (done bytes) p in
        written.0 ≡ done r
        → IsQuietBefore env (closed r written.1).1
        → read_receipt loads from_iso sha256 version
            (answers_of written.1.world (made env p))
            kind
            max_age
            now
          ≡ done (envelope version stamp kind evidence, sha256 bytes)
  write-read env p respects upper leaf ancestors resolved bytes r decoded returned quiet =
      let stored =
        write_new_receipt-IsStored env p respects upper leaf ancestors resolved bytes r returned
          quiet in
      let world = (write_new_receipt env upper leaf ancestors resolved (done bytes) p).1.world in
      let i = made env p in
      let read =
        read_written world i stored.plain
          (omega (arith, stored.not_empty, ap length stored.content))
          (omega (arith, stored.bounded, ap length stored.content))
          (ap loads stored.content ∙ decoded) in
      read ∙ ap (λ (b : Bytes). stored_as b) stored.content
