-- ===== src/Receipts/Tests.antt =====
-- A receipt that is reserved, written three bytes at a time and read again, and the theorems at it.
use ios_rehydrate.Prelude.{ℕ, suc, ◌≡◌, refl, true, false, none, some, List, [], ◌∷◌, arith}
use ios_rehydrate.Prelude.Bytes.{Bytes, Text, codes, eq_text, elem}
use ios_rehydrate.Prelude.Texts.{starts_with, ends_with}
use ios_rehydrate.Prelude.Values.{dict, Fields, end, get, pos}
use ios_rehydrate.Errors.{
  value_error, error, io, policy_refused, Result, done, raise, ◌>>=◌, raise_if,
}
use ios_rehydrate.Receipts.Files.{
  Identity, Process, Environment, empty_file, overlay, enter, lstat, fstat, write, fsync, close,
  unlink, create,
}
use ios_rehydrate.Receipts.{
  Reservation, Session, matches_reserved_path, close_quietly, assert_identity,
  mark_operation_started, write_all, finalize, failed, commit, abort_uncommitted, abort, preserve,
  abort_on_pre_operation_failure,
}
use ios_rehydrate.Receipts.Reserve.{
  Ancestor, lstrip_of, rstrip_of, is_windows_reserved_leaf, is_invalid_leaf,
  existing_directory_without_links, reserve_receipt, write_new_receipt, envelope,
}
use ios_rehydrate.Receipts.Reading.{
  Loaded, loaded, undecodable, Moment, read_up_to, read_file, says, matches_workflow, created_at,
  read_receipt,
}
use ios_rehydrate.Receipts.Removal.{IsQuietBefore, IsSafeAbort, abort-IsSafeAbort}
use ios_rehydrate.Receipts.Life.{
  mark, abort_early, preserves, aborts, commits, step, run, run-evidence_kept, run-committed_final,
}
use ios_rehydrate.Receipts.Loop.{IsRespectful, write_all_enough}
use ios_rehydrate.Receipts.Failure.{IsOperatingSystem, IsRefused, commit-IsRefused}
use ios_rehydrate.Receipts.Exclusive.{
  closed, IsStored, write_new_receipt-IsStored, IsRefusedUnchanged,
  reserve_receipt-IsRefusedUnchanged,
}
use ios_rehydrate.Receipts.Reading.Admitted.{IsAdmitted, read_receipt-IsAdmitted}
use ios_rehydrate.Receipts.RoundTrip.{answers_of, write-read}

abbrev file : Identity
file = record { device = 1; inode = 7 }

abbrev stranger : Identity
stranger = record { device = 1; inode = 8 }

-- Nobody else is there, nothing fails, and a call writes three bytes at most.
abbrev calm : Environment
calm = record {
  others = λ n w. w;
  failure = λ n. none;
  progress = λ n. 3;
  fresh_identity = λ n. file;
  fresh_descriptor = λ n. 3;
}

-- The disk is full.
abbrev full : Environment
full = record calm { progress = λ n. 0 }

abbrev nothing : Process
nothing = record {
  world = record { entry = none; at = λ i. empty_file };
  descriptors = λ d. none;
  clock = 0;
  removed = [];
}

abbrev taken : Process
taken = record nothing { world = record { entry = some stranger; at = λ i. empty_file } }

abbrev identity_case : Text → Text
identity_case t = t

abbrev folder : List (Result Ancestor)
folder = done (record { directory = true; link = false; reparse = false }) ∷ []

abbrev held : Reservation
held = record { descriptor = some 3; identity = file; operation_started = false; committed = false }

runs : ℕ
unfolding eq_text elem starts_with ends_with overlay enter lstat fstat write fsync close unlink
    create matches_reserved_path close_quietly assert_identity mark_operation_started write_all
    finalize failed commit abort_uncommitted abort preserve abort_on_pre_operation_failure lstrip_of
    rstrip_of is_windows_reserved_leaf is_invalid_leaf existing_directory_without_links
    reserve_receipt write_new_receipt envelope read_up_to read_file says matches_workflow created_at
    read_receipt get ◌>>=◌ raise_if step run
runs = 0

abbrev new_session : Session
new_session = record {
  reservation = held;
  process = (reserve_receipt calm identity_case (codes "r.json") folder (done tt) nothing).1;
}

reserved_now :
    (reserve_receipt calm identity_case (codes "r.json") folder (done tt) nothing).0 ≡ done held
unfolding runs
reserved_now = refl

-- `con.txt` after `str.upper`, a trailing point, a separator and a control character
bad_leaves :
    (is_invalid_leaf identity_case (codes "CON.txt") ≡ true)
    × (is_invalid_leaf identity_case (codes "COM¹") ≡ true)
    × (is_invalid_leaf identity_case (codes "r.json.") ≡ true)
    × (is_invalid_leaf identity_case (codes "a/b") ≡ true)
    × (is_invalid_leaf identity_case (9 ∷ codes "a") ≡ true)
    × (is_invalid_leaf identity_case (codes "CONSOLE.txt") ≡ false)
unfolding runs
bad_leaves = (refl, refl, refl, refl, refl, refl)

linked_folder :
    (reserve_receipt calm identity_case
      (codes "r.json")
      (done (record { directory = true; link = true; reparse = false }) ∷ [])
      (done tt)
      nothing).0
    ≡ raise (error io "RECEIPT_PARENT_INVALID")
unfolding runs
linked_folder = refl

exists_already :
    (reserve_receipt calm identity_case (codes "r.json") folder (done tt) taken).0
    ≡ raise (error io "RECEIPT_EXISTS")
unfolding runs
exists_already = refl

abbrev bytes : Bytes
bytes = codes "{\"receipt\"}"

abbrev replaced_session : Session
replaced_session = record new_session {
  process = record new_session.process { world = taken.world };
}

-- A replacement that another process puts at the path is left alone.
replaced : (abort calm replaced_session).1.process.removed ≡ []
unfolding runs
replaced = refl

disk_full :
    (commit full (done (codes "ab")) new_session).0 ≡ raise (error io "RECEIPT_FINALIZE_FAILED")
unfolding runs
disk_full = refl

calm-IsRespectful : IsRespectful calm file
calm-IsRespectful = record { untouched = λ n w. refl }

calm-IsQuietBefore : (t : Session) → IsQuietBefore calm t
calm-IsQuietBefore t = record { kept = λ n w h. refl }

calm-IsOperatingSystem : IsOperatingSystem calm
calm-IsOperatingSystem = record { raises = λ n e h. cc }

full-IsOperatingSystem : IsOperatingSystem full
full-IsOperatingSystem = record { raises = λ n e h. cc }

abort-IsSafeAbort_example : IsSafeAbort calm new_session (done true) (abort calm new_session).1
unfolding runs
abort-IsSafeAbort_example =
    abort-IsSafeAbort calm new_session (calm-IsQuietBefore (abort calm new_session).1)

run-evidence_kept_example :
    (run calm
      (abort_early ∷ commits (raise value_error) ∷ preserves ∷ [])
      (mark_operation_started calm new_session).1).process.removed
    ≡ []
unfolding runs
run-evidence_kept_example =
    run-evidence_kept calm new_session (abort_early ∷ commits (raise value_error) ∷ preserves ∷ [])
      refl refl

run-committed_final_example :
    run calm (aborts ∷ mark ∷ commits (done bytes) ∷ []) (commit calm (done bytes) new_session).1
    ≡ (commit calm (done bytes) new_session).1
unfolding runs
run-committed_final_example =
    run-committed_final calm (done bytes) new_session (aborts ∷ mark ∷ commits (done bytes) ∷ [])
      refl

write_all_enough_example :
    write_all calm (suc 20) 3 bytes 0 new_session.process
    ≡ write_all calm (suc 11) 3 bytes 0 new_session.process
unfolding runs
write_all_enough_example = write_all_enough calm 11 9 3 bytes 0 new_session.process (omega arith)

commit-IsRefused_example :
    IsRefused full full-IsOperatingSystem new_session
      (commit full (done bytes) new_session).1
      (error io "RECEIPT_FINALIZE_FAILED")
unfolding runs
commit-IsRefused_example =
    commit-IsRefused full full-IsOperatingSystem (done bytes) new_session
      (error io "RECEIPT_FINALIZE_FAILED") (λ x h. cc) refl refl

abbrev finished : Result Reservation × Process
finished =
    write_new_receipt calm identity_case (codes "r.json") folder (done tt) (done bytes) nothing

abbrev settled : Reservation
settled = record held { descriptor = none; committed = true }

write_new_receipt-IsStored_example :
    IsStored calm nothing calm-IsRespectful identity_case
      (codes "r.json")
      folder
      (done tt)
      bytes
      (closed settled finished.1).1
unfolding runs
write_new_receipt-IsStored_example =
    write_new_receipt-IsStored calm nothing calm-IsRespectful identity_case (codes "r.json") folder
      (done tt) bytes settled refl (calm-IsQuietBefore (closed settled finished.1).1)

reserve_receipt-IsRefusedUnchanged_example :
    IsRefusedUnchanged calm taken
      (reserve_receipt calm identity_case (codes "r.json") folder (done tt) taken)
unfolding runs
reserve_receipt-IsRefusedUnchanged_example =
    reserve_receipt-IsRefusedUnchanged calm taken identity_case (codes "r.json") folder (done tt)
      stranger refl

-- The receipt, for a decoder that knows these bytes only.
abbrev payload : Fields
payload = envelope (codes "1.0") (codes "now") (codes "backup") end

abbrev decoder : Bytes → Loaded
decoder b = elim (eq_text b bytes) [ true ↦ loaded (dict payload) | false ↦ undecodable ]

abbrev clock : Text → Result Moment
clock t = done (record { aware = true; utc = done 1000 })

abbrev digest : Bytes → Text
digest b = codes "ab"

write-read_example :
    read_receipt decoder clock digest
      (codes "1.0")
      (answers_of finished.1.world file)
      (codes "backup")
      (some (pos 500))
      1200
    ≡ done (payload, digest bytes)
unfolding runs
write-read_example =
    write-read decoder clock digest (codes "1.0") (codes "backup") (some (pos 500)) 1200
      (codes "now") 1000 end refl (omega arith) refl calm nothing calm-IsRespectful identity_case
      (codes "r.json") folder (done tt) bytes settled refl refl
      (calm-IsQuietBefore (closed settled finished.1).1)

read_receipt-IsAdmitted_example :
    IsAdmitted decoder clock digest
      (codes "1.0")
      (answers_of finished.1.world file)
      (codes "backup")
      (some (pos 500))
      1200
      payload
      (digest bytes)
unfolding runs
read_receipt-IsAdmitted_example =
    read_receipt-IsAdmitted decoder clock digest (codes "1.0") (answers_of finished.1.world file)
      (codes "backup") (some (pos 500)) 1200 payload (digest bytes) refl

-- Old, from the future, and of another workflow
refusals :
    let answers = answers_of finished.1.world file in
    let read = read_receipt decoder clock digest (codes "1.0") answers in
    (read (codes "backup") (some (pos 100)) 1200
      ≡ raise (error policy_refused "BACKUP_RECEIPT_STALE"))
    × (read (codes "upgrade") none 1200 ≡ raise (error policy_refused "BACKUP_RECEIPT_MISMATCH"))
unfolding runs
refusals = (refl, refl)
