-- ===== src/Chainstate/FlatFiles.antt =====
-- crates/chainstate/src/flatfiles.rs: the append-only files of length-prefixed records.
-- The directory is a function from file ids to contents: the name `data{id:05}.dat` of a file and
-- its id determine one another. How far the operating system carries out the writes of an `append`
-- is its argument.
pub mod Record
pub mod Append
pub mod Restart
use fluxd_rust.Prelude.{
  ℕ, ◌+◌, ◌-◌, ◌%◌, ◌^◌, ◌≤◌, ◌<◌, List, [], ◌∷◌, ◌++◌, Bool, true, false, not, length, take, drop,
  Option, none, some, if◌then◌else◌, ◌==◌, ltb, leb,
}
use fluxd_rust.Prelude.Result.{Result, ok, err, ◌>>=◌, ◌>>◌, fail_if}
use fluxd_rust.Primitives.Bytes.{to_le_bytes, from_le_bytes}
use fluxd_rust.Chainstate.FileLocation.{FileLocation}

pub data FlatFileError : Type 0 where
  io invalid_location length_mismatch : FlatFileError

-- `fails_after n`: `n` bytes of the record reach the file before a write or the flush fails.
pub data Outcome : Type 0 where
  written open_fails : Outcome
  fails_after : ℕ → Outcome

pub record FlatFileStore : Type 0 where
  pub max_file_size : ℕ
  pub current_file : ℕ
  pub current_len : ℕ
  pub files : ℕ → Option (List ℕ)

abbrev pub update : (ℕ → Option (List ℕ)) → ℕ → List ℕ → ℕ → Option (List ℕ)
update files i bytes j = if j == i then some bytes else files j

-- `create(true)`: a file that is not there is empty.
abbrev pub contents : Option (List ℕ) → List ℕ
contents none = []
contents (some bytes) = bytes

abbrev pub record_bytes : List ℕ → List ℕ
record_bytes bytes = to_le_bytes 4 (length bytes % 2 ^ 32) ++ bytes

abbrev pub needed : List ℕ → ℕ
needed bytes = (4 + length bytes) % 2 ^ 64

-- The record does not fit behind the current file's end, so a new file is begun.
unfoldable pub rolls : List ℕ → FlatFileStore → Bool
rolls bytes s = ltb s.max_file_size ((s.current_len + needed bytes) % 2 ^ 64)

unfoldable pub roll : List ℕ → FlatFileStore → FlatFileStore
unfolding rolls
roll bytes s =
    if rolls bytes s
    then record s { current_file = (s.current_file + 1) % 2 ^ 32; current_len = 0 }
    else s

write_record : Outcome → List ℕ → FlatFileStore → FlatFileStore × Result FlatFileError FileLocation
write_record open_fails bytes s = (s, err io)
write_record (fails_after n) bytes s =
    let old = contents (s.files s.current_file) in
    (
      record s { files = update s.files s.current_file (old ++ take n (record_bytes bytes)) },
      err io,
    )
write_record written bytes s =
    let old = contents (s.files s.current_file) in
    (
      record s {
        files = update s.files s.current_file (old ++ record_bytes bytes);
        current_len = (s.current_len + needed bytes) % 2 ^ 64;
      },
      ok (record { file_id = s.current_file; offset = s.current_len; len = length bytes % 2 ^ 32 }),
    )

unfoldable pub append :
    Outcome → List ℕ → FlatFileStore → FlatFileStore × Result FlatFileError FileLocation
unfolding roll write_record
append outcome bytes s = write_record outcome bytes (roll bytes s)

open_file : Option (List ℕ) → Result FlatFileError (List ℕ)
open_file none = err io
open_file (some bytes) = ok bytes

-- The bytes and what stands behind them; `read_exact` fails at the end of the file.
read_exact : ℕ → List ℕ → Result FlatFileError (List ℕ)
read_exact n bytes = if ltb (length bytes) n then err io else ok (take n bytes)

-- From the seek on.
read_from : FileLocation → List ℕ → Result FlatFileError (List ℕ)
unfolding read_exact
read_from l file = do
  let tail = drop l.offset file
  len_bytes ← read_exact 4 tail
  let stored_len = from_le_bytes len_bytes
  fail_if (not (stored_len == l.len)) length_mismatch
  read_exact stored_len (drop 4 tail)

unfoldable pub read : FileLocation → FlatFileStore → Result FlatFileError (List ℕ)
unfolding open_file read_from
read l s = do
  fail_if (l.len == 0) invalid_location
  file ← open_file (s.files l.file_id)
  read_from l file

-- `remove_file`
unfoldable pub remove_file : ℕ → FlatFileStore → FlatFileStore × Result FlatFileError (Unit {0})
remove_file id s = elim (s.files id) [
  | none ↦ (s, err io)
  | some bytes ↦ (record s { files = λ j. if j == id then none else s.files j }, ok tt)
]

-- One entry of the directory that has the form of a flat file's name: its id and length.
pub record DirEntry : Type 0 where
  pub file_id : ℕ
  pub len : ℕ

newest : Option DirEntry → List DirEntry → Option DirEntry
newest last [] = last
newest none (e ∷ es) = newest (some e) es
newest (some last) (e ∷ es) = newest (some (if leb e.file_id last.file_id then last else e)) es

-- The file to go on with, and its length. The entries are those of the files whose names have the
-- prefix and an id, in the directory's order: reading the directory and its errors are left out.
unfoldable pub locate_active_file : List DirEntry → ℕ → ℕ × ℕ
unfolding newest
locate_active_file entries max_file_size = elim (newest none entries) [
  | none ↦ (0, 0)
  | some last ↦
      if leb max_file_size last.len
      then ((last.file_id + 1) % 2 ^ 32, 0)
      else (last.file_id, last.len)
]
