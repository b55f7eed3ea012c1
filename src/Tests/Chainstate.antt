-- ===== src/Tests/Chainstate.antt =====
-- Flat files and their locations.
use fluxd_rust.Prelude.{
  ℕ, ◌+◌, ◌%◌, ◌^◌, ◌≡◌, refl, List, [], ◌∷◌, Option, none, some, if◌then◌else◌, ◌==◌, leb,
  replicate, arith, inl,
}
use fluxd_rust.Prelude.Result.{ok, err}
use fluxd_rust.Primitives.Bytes.{from_le_bytes}
use fluxd_rust.Chainstate.FileLocation.{FileLocation, IsFileLocation}
use fluxd_rust.Chainstate.FlatFiles.{
  FlatFileStore, written, fails_after, append, read, DirEntry, locate_active_file, length_mismatch,
  invalid_location,
}
use fluxd_rust.Chainstate.FlatFiles.Append.{
  IsSynced, HasRoom, read-append, append-IsSynced, read-append_old, append_partial_not_IsSynced,
}
use fluxd_rust.Chainstate.FlatFiles.Restart.{locate_active_file-restart}

-- One record of three bytes in a file of at most 20.
abbrev first_file : List ℕ
first_file = 3 ∷ 0 ∷ 0 ∷ 0 ∷ 7 ∷ 8 ∷ 9 ∷ []

abbrev files_of_one : ℕ → Option (List ℕ)
files_of_one i = if i == 0 then some first_file else none

abbrev one_record : FlatFileStore
one_record = record { max_file_size = 20; current_file = 0; current_len = 7; files = files_of_one }

abbrev first_location : FileLocation
first_location = record { file_id = 0; offset = 0; len = 3 }

abbrev block : List ℕ
block = 1 ∷ 2 ∷ []

-- With its length this does not fit behind the first record.
abbrev large_block : List ℕ
large_block = replicate 10 5

read_first : read first_location one_record ≡ ok (7 ∷ 8 ∷ 9 ∷ [])
unfolding read from_le_bytes
read_first = refl

read_wrong_length : read (record first_location { len = 2 }) one_record ≡ err length_mismatch
unfolding read from_le_bytes
read_wrong_length = refl

read_empty : read (record first_location { len = 0 }) one_record ≡ err invalid_location
unfolding read
read_empty = refl

append_rolls :
    (append written large_block one_record).1 ≡ ok (record { file_id = 1; offset = 0; len = 10 })
unfolding append
append_rolls = refl

one_record-IsSynced : IsSynced one_record
one_record-IsSynced = record { len_matches = refl; no_later_file = λ i h. ground arith }

block-HasRoom : HasRoom block one_record
block-HasRoom = record { record_len = omega arith; file_ids = omega arith; file_len = omega arith }

large_block-HasRoom : HasRoom large_block one_record
large_block-HasRoom = record {
  record_len = omega arith;
  file_ids = omega arith;
  file_len = omega arith;
}

read-append_example :
    (l : FileLocation) × ((append written large_block one_record).1 ≡ ok l)
    × (read l (append written large_block one_record).0 ≡ ok large_block)
read-append_example =
    read-append large_block one_record one_record-IsSynced large_block-HasRoom (omega arith)

read-append_old_example :
    read first_location (append (fails_after 5) block one_record).0 ≡ ok (7 ∷ 8 ∷ 9 ∷ [])
read-append_old_example = read-append_old (fails_after 5) block one_record first_location read_first

append-IsSynced_example : IsSynced (append written large_block one_record).0
append-IsSynced_example =
    append-IsSynced large_block one_record large_block-HasRoom one_record-IsSynced

append_partial_not_IsSynced_example : ¬ IsSynced (append (fails_after 5) block one_record).0
append_partial_not_IsSynced_example =
    append_partial_not_IsSynced 5 block one_record one_record-IsSynced block-HasRoom (omega arith)

abbrev entries : List DirEntry
entries = record { file_id = 0; len = 7 } ∷ []

locate_active_file-restart_example :
    locate_active_file entries 20 ≡ (if leb 20 7 then ((0 + 1) % 2 ^ 32, 0) else (0, 7))
locate_active_file-restart_example =
    locate_active_file-restart one_record entries one_record-IsSynced
      (record { file = first_file; at = refl; len_matches = refl }, tt) (inl refl)

first_location-IsFileLocation : IsFileLocation first_location
first_location-IsFileLocation = record {
  file_id_range = omega arith;
  offset_range = omega arith;
  len_range = omega arith;
}
