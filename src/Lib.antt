-- ===== src/Lib.antt =====
-- A verification library for ios-rehydrate, a command line program that brings an offloaded app of an
-- iOS device back from an IPA that its user owns. The program inspects the device's application
-- database, validates the IPA byte by byte, stages it, sends one Upgrade command and looks whether the
-- app is installed; beside that it checks encrypted backups without writing plaintext.
--
-- The parts, and the files that model them (paths from the root of the repository):
--   * Errors: src/ios_rehydrate/errors.py. `Result` is a value or one of the exceptions that the code names;
--     a chain of statements that may raise is a do block. Messages are left out.
--   * Privacy: `opaque_ref` of src/ios_rehydrate/privacy.py, over a digest that is a parameter.
--   * Apps: src/ios_rehydrate/apps.py. `inspect_app` is a function of what the lookup returned or raised.
--     Apps/Inspection compares the loop with a description of the records in the result.
--   * Ipa: the preflight of src/ios_rehydrate/ipa.py on the bytes of the archive. Ipa/Struct has the reads
--     and constants, Ipa/Directory the end records, Ipa/Extra the extra fields, Ipa/Names the member
--     names, Ipa/Entry the local and central records, Ipa/Ranges what is asked of all entries, Ipa/Inflate
--     the integrity of the data, and Ipa/Preflight the whole. Ipa/Shape checks the members that `zipfile`
--     lists against these entries, Ipa/Contents reads them, Ipa/Validate takes the payload from them, and
--     Ipa/Admission joins the parts from the bytes to the payload.
--     Ipa/Refusal has the rules for code that returns or refuses. Below each of them stand the proofs about
--     it.
--   * Device: the selection of a device in src/ios_rehydrate/device.py, from the list that usbmux returns.
--   * Manifest: src/ios_rehydrate/manifest.py. Manifest/Version and Manifest/Keybag are the key material,
--     Manifest/Sqlite the cut of the decrypted database, Manifest/Query the sums over its rows.
--   * Upgrade: src/ios_rehydrate/upgrade.py. Upgrade/Session has the effects: a step takes the local variables
--     that outlive an exception, with the calls so far, and returns them beside its result. An
--     `Environment` says what every call of a device service or of the caller's callback returns or
--     raises, so that a theorem for all environments covers all failures and cancellations. Upgrade calls
--     `inspect_app` of Apps and takes the `ValidatedIpa` of Ipa/Payload.
--   * Receipts: src/ios_rehydrate/receipts.py. Receipts/Files is the path with its inodes and the descriptors
--     of the process; an `Environment` says what other processes do before each system call, which calls
--     fail and how much a call writes. Receipts has the methods of a reservation as steps on the object and
--     the process, Receipts/Reserve the functions that make and write one, Receipts/Reading the reader.
--   * Backup: src/ios_rehydrate/backup.py. Backup has the tests that the parts share, Backup/Payload the
--     scans of the directories with their budget, Backup/Verify `validate_backup` as a function of what the
--     file system answers. Backup/Service has the calls of the device, the backup service and the scratch
--     directory as steps on the record of the calls; an `Environment` answers them. Backup/Encryption is
--     `enable_encryption` on top of them, and Backup/Create is `create_backup`, which calls
--     `validate_backup` on what it has made.
--   * Cli: of src/ios_rehydrate/cli.py, the gates that read a backup receipt, and the callback that the
--     upgrade command hands to `rehydrate_app`. It joins Receipts, Backup and Upgrade.
--   * Effects: steps that read and change a state and may raise, and waiting under a time limit, for
--     Upgrade, Receipts and Backup.
--   * Prelude: lists measured by native numbers, bytes, texts, property list values and tests.
--
-- Bounds and fuel. Every loop over bytes is recursion on the bytes, or on fuel that starts above the
-- number of bytes; the rounds take four bytes at least of an extra area, 46 of a directory, 8 of a
-- keybag and one of a payload. Out of fuel is `assertion_error`, which the theorems on refusal
-- exclude. The loop that writes a receipt gets one round more than there are bytes, each of which
-- writes one at least. The inner loop of the inflation is bounded by the pending input and the
-- output still allowed. Python's integers do not wrap around, and neither do those of the model; a
-- checksum is cut to 32 bits where the code does. The digits of a number get as many rounds as the
-- number itself.
--
-- Not in the repository, and hence parameters: the digest, the device services, zlib with its
-- decompressor, `json`, the parser of times, `str.upper`, `str.casefold`, the text codecs, the
-- Unicode tables, the reads of `zipfile` and `plistlib`, the database connection and the archiver.
-- What is asked of them is `IsForeign` (they raise no error of the program's own with the two
-- statuses of a sent command), `IsOperatingSystem` (system calls raise `OSError` and interruptions
-- only), `IsOrderly` (the calls that remove a scratch directory raise `OSError` only),
-- `IsFavourable` (the device, the operator and the file system of a run that ends well), `IsCodec`
-- (codecs raise decoding errors only) and `TailShrinks` (zlib's unconsumed tail is a part of its
-- input); the tests fill each with a concrete function.
--
-- Not modelled: sockets, the restricted backup protocol (safe_mobilebackup.py), the rest of the
-- command line, and the scripts of the maintainers. Of the file system, a receipt's path is modelled
-- as a state; a backup's files are what the calls answer.
pub mod Prelude
pub mod Errors
pub mod Effects
pub mod Privacy
pub mod Apps
pub mod Device
pub mod Ipa
pub mod Manifest
pub mod Receipts
pub mod Backup
pub mod Upgrade
pub mod Cli
