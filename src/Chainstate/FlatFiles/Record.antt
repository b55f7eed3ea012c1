-- ===== src/Chainstate/FlatFiles/Record.antt =====
-- `read` of flatfiles.rs returns bytes exactly when a record that holds them stands at the location.
use fluxd_rust.Prelude.{
  ℕ, ◌<◌, ◌≡◌, sym, List, ◌++◌, append_assoc, true, false, length, length-append, length-take,
  length-drop, take, drop, take-append-drop, some, Option-cases, ◌==◌, ltb, arith, Bool-cases, inl,
  inr,
}
use fluxd_rust.Prelude.Slices.{take-append, drop-append}
use fluxd_rust.Prelude.Result.{ok}
use fluxd_rust.Primitives.Bytes.{from_le_bytes}
use fluxd_rust.Chainstate.FileLocation.{FileLocation}
use fluxd_rust.Chainstate.FlatFiles.{FlatFileStore, open_file, read_exact, read_from, read}

-- Four bytes of length and then the record's bytes stand at the offset.
pub record Holds (file : List ℕ) (l : FileLocation) (bytes : List ℕ) : Type 0 where
  pub before : List ℕ
  pub prefix : List ℕ
  pub after : List ℕ
  pub shape : file ≡ before ++ (prefix ++ (bytes ++ after))
  pub offset_at : length before ≡ l.offset
  pub prefix_size : length prefix ≡ 4
  pub stored_len : from_le_bytes prefix ≡ l.len
  pub size : length bytes ≡ l.len
  pub nonempty : 0 < l.len

pub Holds-append :
    {file : List ℕ} {l : FileLocation} {bytes : List ℕ} (more : List ℕ)
    → Holds file l bytes
    → Holds (file ++ more) l bytes
Holds-append {bytes} more h = record {
  before = h.before;
  prefix = h.prefix;
  after = h.after ++ more;
  shape = rw (h.shape, append_assoc, append_assoc, append_assoc);
  offset_at = h.offset_at;
  prefix_size = h.prefix_size;
  stored_len = h.stored_len;
  size = h.size;
  nonempty = h.nonempty;
}

module _ (s : FlatFileStore) (l : FileLocation) {bytes : List ℕ} where
  pub read_of_Holds :
      {file : List ℕ} → s.files l.file_id ≡ some file → Holds file l bytes → read l s ≡ ok bytes
  unfolding read open_file read_exact
  read_of_Holds at h =
      let rest = bytes ++ h.after in
      let t0 : l.len == 0 ≡ false = ground arith in
      let t1 : l.len == l.len ≡ true = ground arith in
      let t2 : ltb (length (h.prefix ++ rest)) 4 ≡ false =
        ground (arith, length-append h.prefix rest) in
      let t3 : ltb (length rest) l.len ≡ false = ground (arith, length-append bytes h.after) in
      rw (
        t0,
        at,
        h.shape,
        drop-append l.offset h.before (h.prefix ++ rest) h.offset_at,
        t2,
        take-append 4 h.prefix rest h.prefix_size,
        h.stored_len,
        t1,
        drop-append 4 h.prefix rest h.prefix_size,
        t3,
        take-append l.len bytes h.after h.size,
      )

  Holds-of_read_from :
      (file : List ℕ) → 0 < l.len → read_from l file ≡ ok bytes → Holds file l bytes
  unfolding read_from read_exact
  Holds-of_read_from file nonempty e = elim (Bool-cases (ltb (length (drop l.offset file)) 4)) [
    | inl short ↦ cc (rw short at e)
    | inr long ↦ elim (Bool-cases (from_le_bytes (take 4 (drop l.offset file)) == l.len)) [
      | inr other ↦ cc (rw (long, other) at e)
      | inl same ↦
          elim (Bool-cases (
            ltb (length (drop 4 (drop l.offset file)))
              (from_le_bytes (take 4 (drop l.offset file))))) [
                | inl cut ↦ cc (rw (long, same, cut) at e)
                | inr whole ↦
                    let stored : from_le_bytes (take 4 (drop l.offset file)) ≡ l.len =
                      ground arith in
                    let rest = drop 4 (drop l.offset file) in
                    let taken : take (from_le_bytes (take 4 (drop l.offset file))) rest ≡ bytes =
                      cc (rw (long, same, whole) at e) in
                    let taken' : take l.len rest ≡ bytes = rw stored at taken in
                    record {
                      before = take l.offset file;
                      prefix = take 4 (drop l.offset file);
                      after = drop l.len rest;
                      shape =
                          rw
                            (
                              ← taken',
                              take-append-drop l.len rest,
                              take-append-drop 4 (drop l.offset file),
                            )
                            (sym (take-append-drop l.offset file));
                      offset_at =
                          ground (arith, length-take l.offset file, length-drop l.offset file);
                      prefix_size = ground (arith, length-take 4 (drop l.offset file));
                      stored_len = stored;
                      size = rw (← taken') (ground (arith, length-take l.len rest));
                      nonempty = nonempty;
                    }
              ]
    ]
  ]

  pub Holds-of_read :
      read l s ≡ ok bytes → (file : List ℕ) × (s.files l.file_id ≡ some file) × Holds file l bytes
  unfolding read open_file
  Holds-of_read e = elim (Bool-cases (l.len == 0)) [
    | inl zero_len ↦ cc (rw zero_len at e)
    | inr nonempty ↦ elim (Option-cases (s.files l.file_id)) [
      | inl missing ↦ cc (rw (nonempty, missing) at e)
      | inr (file, at) ↦ (file, at, Holds-of_read_from file (ground arith) (rw (nonempty, at) at e))
    ]
  ]
