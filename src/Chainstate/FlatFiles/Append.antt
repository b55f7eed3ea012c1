-- ===== src/Chainstate/FlatFiles/Append.antt =====
-- `append` and `read` of flatfiles.rs together: what is appended is read back, and stays.
use fluxd_rust.Prelude.{
  ℕ, ◌+◌, ◌%◌, ◌^◌, ◌≤◌, ◌<◌, ◌≡◌, refl, ap, ◌∙◌, List, [], ◌++◌, append-nil, length, length-append,
  length-take, take, none, some, ◌==◌, arith, Bool-cases, inl, inr,
}
use fluxd_rust.Prelude.Result.{ok}
use fluxd_rust.Primitives.Bytes.{to_le_bytes, length-to_le_bytes, from_le_bytes-to_le_bytes}
use fluxd_rust.Chainstate.FileLocation.{FileLocation}
use fluxd_rust.Chainstate.FlatFiles.{
  Outcome, written, open_fails, fails_after, FlatFileStore, contents, record_bytes, rolls, roll,
  write_record, append, read,
}
use fluxd_rust.Chainstate.FlatFiles.Record.{Holds, Holds-append, read_of_Holds, Holds-of_read}

-- The recorded length is the current file's, and no file has a larger id.
pub record IsSynced (s : FlatFileStore) : Type 0 where
  pub len_matches : length (contents (s.files s.current_file)) ≡ s.current_len
  pub no_later_file : (i : ℕ) → s.current_file < i → s.files i ≡ none

-- The sizes that keep the source's u32 and u64 arithmetic from wrapping.
pub record HasRoom (bytes : List ℕ) (s : FlatFileStore) : Type 0 where
  pub record_len : length bytes < 2 ^ 32
  pub file_ids : s.current_file + 1 < 2 ^ 32
  pub file_len : s.current_len + length bytes + 4 < 2 ^ 64

next_id :
    (bytes : List ℕ) (s : FlatFileStore)
    → HasRoom bytes s
    → (s.current_file + 1) % 2 ^ 32 ≡ s.current_file + 1
next_id bytes s room = omega (arith, room.file_ids)

-- A new file is begun empty.
pub roll-IsSynced :
    (bytes : List ℕ) (s : FlatFileStore) → HasRoom bytes s → IsSynced s → IsSynced (roll bytes s)
unfolding roll
roll-IsSynced bytes s room sync = elim (Bool-cases (rolls bytes s)) [
  | inl full ↦ rw full (record {
    len_matches =
        rw (
          sync.no_later_file ((s.current_file + 1) % 2 ^ 32) (omega (arith, next_id bytes s room)));
    no_later_file = λ i h. sync.no_later_file i (omega (arith, next_id bytes s room));
  })
  | inr fits ↦ rw fits sync
]

-- What the new record's location is, and that its record stands there.
abbrev location : List ℕ → FlatFileStore → FileLocation
location bytes s = record {
  file_id = s.current_file;
  offset = s.current_len;
  len = length bytes % 2 ^ 32;
}

module _ (bytes : List ℕ) (s : FlatFileStore) (sync : IsSynced s) where
  record_Holds :
      0 < length bytes
      → length bytes < 2 ^ 32
      → Holds (contents (s.files s.current_file) ++ record_bytes bytes) (location bytes s) bytes
  record_Holds nonempty fits = record {
    before = contents (s.files s.current_file);
    prefix = to_le_bytes 4 (length bytes % 2 ^ 32);
    after = [];
    shape = rw (append-nil bytes);
    offset_at = sync.len_matches;
    prefix_size = length-to_le_bytes 4 _;
    stored_len = from_le_bytes-to_le_bytes 4 _ (omega arith);
    size = omega arith;
    nonempty = omega arith;
  }

  write-IsSynced :
      length bytes < 2 ^ 32
      → s.current_len + length bytes + 4 < 2 ^ 64
      → IsSynced (write_record written bytes s).0
  unfolding write_record
  write-IsSynced fits room = record {
    len_matches = ground (
      arith,
      length-append (contents (s.files s.current_file)) (record_bytes bytes),
      length-append (to_le_bytes 4 (length bytes % 2 ^ 32)) bytes,
      length-to_le_bytes 4 (length bytes % 2 ^ 32),
      sync.len_matches,
    );
    no_later_file = λ i h. ground (arith, sync.no_later_file i);
  }

roll_room :
    (bytes : List ℕ) (s : FlatFileStore)
    → HasRoom bytes s
    → (roll bytes s).current_len ≤ s.current_len
unfolding roll
roll_room bytes s room = ground arith

-- A synced store with room for the record is synced after an `append` whose writes go through.
pub append-IsSynced :
    (bytes : List ℕ) (s : FlatFileStore)
    → HasRoom bytes s
    → IsSynced s
    → IsSynced (append written bytes s).0
unfolding append
append-IsSynced bytes s room sync =
    write-IsSynced bytes (roll bytes s) (roll-IsSynced bytes s room sync) room.record_len
      (omega (arith, roll_room bytes s room, room.file_len))

-- In a synced store with room for a record that is not empty, an `append` whose writes go through
-- returns a location, and `read` at that location then returns the record.
pub read-append :
    (bytes : List ℕ) (s : FlatFileStore)
    → IsSynced s
    → HasRoom bytes s
    → 0 < length bytes
    → (l : FileLocation) × ((append written bytes s).1 ≡ ok l)
      × (read l (append written bytes s).0 ≡ ok bytes)
unfolding append write_record
read-append bytes s sync room nonempty =
    let s' = roll bytes s in
    (
      location bytes s',
      refl,
      read_of_Holds _ (location bytes s') (ground arith)
          (record_Holds bytes s' (roll-IsSynced bytes s room sync) nonempty room.record_len),
    )

write_extends :
    (outcome : Outcome) (bytes : List ℕ) (s : FlatFileStore) (i : ℕ) (file : List ℕ)
    → s.files i ≡ some file
    → (more : List ℕ) × ((write_record outcome bytes s).0.files i ≡ some (file ++ more))
unfolding write_record
write_extends open_fails bytes s i file at = ([], rw (append-nil file) at)
write_extends (fails_after n) bytes s i file at = elim (Bool-cases (i == s.current_file)) [
  | inl same ↦ (take n (record_bytes bytes), ground arith)
  | inr other ↦ ([], rw (other, append-nil file) at)
]
write_extends written bytes s i file at = elim (Bool-cases (i == s.current_file)) [
  | inl same ↦ (record_bytes bytes, ground arith)
  | inr other ↦ ([], rw (other, append-nil file) at)
]

roll-files : (bytes : List ℕ) (s : FlatFileStore) → (roll bytes s).files ≡ s.files
unfolding roll
roll-files bytes s = ground arith

-- Every file keeps its bytes in front, however far the writes go.
append_extends :
    (outcome : Outcome) (bytes : List ℕ) (s : FlatFileStore) (i : ℕ) (file : List ℕ)
    → s.files i ≡ some file
    → (more : List ℕ) × ((append outcome bytes s).0.files i ≡ some (file ++ more))
unfolding append
append_extends outcome bytes s i file at =
    write_extends outcome bytes (roll bytes s) i file (ap (λ f. f i) (roll-files bytes s) ∙ at)

-- What could be read before an `append` is read after it as well, however far the writes of the
-- `append` go.
pub read-append_old :
    (outcome : Outcome) (bytes : List ℕ) (s : FlatFileStore) (l : FileLocation) {old : List ℕ}
    → read l s ≡ ok old
    → read l (append outcome bytes s).0 ≡ ok old
read-append_old outcome bytes s l h =
    let (file, at, held) = Holds-of_read s l h in
    let (more, at') = append_extends outcome bytes s l.file_id file at in
    read_of_Holds _ l at' (Holds-append more held)

-- When some bytes of a record reach the file of a synced store with room for it, and a write then
-- fails, the store is not synced any more.
pub append_partial_not_IsSynced :
    (n : ℕ) (bytes : List ℕ) (s : FlatFileStore)
    → IsSynced s
    → HasRoom bytes s
    → 0 < n
    → ¬ IsSynced (append (fails_after n) bytes s).0
unfolding append write_record
append_partial_not_IsSynced n bytes s sync room pos bad = ground (
  arith,
  bad.len_matches,
  (roll-IsSynced bytes s room sync).len_matches,
  length-append (contents ((roll bytes s).files (roll bytes s).current_file))
      (take n (record_bytes bytes)),
  length-take n (record_bytes bytes),
  length-append (to_le_bytes 4 (length bytes % 2 ^ 32)) bytes,
  length-to_le_bytes 4 (length bytes % 2 ^ 32),
)
