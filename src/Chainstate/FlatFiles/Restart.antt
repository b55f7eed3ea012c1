-- ===== src/Chainstate/FlatFiles/Restart.antt =====
-- `locate_active_file` of flatfiles.rs: a restarted store goes on where the old one stopped.
use fluxd_rust.Prelude.{
  ℕ, ◌+◌, ◌%◌, ◌^◌, ◌≤◌, ◌≡◌, ◌⊎◌, refl, List, [], ◌∷◌, length, some, if◌then◌else◌, leb, arith,
  Bool-cases, inl, inr,
}
use fluxd_rust.Chainstate.FlatFiles.{DirEntry, newest, locate_active_file, FlatFileStore}
use fluxd_rust.Chainstate.FlatFiles.Append.{IsSynced}

-- The entry is that of a file of the store.
pub record IsEntry (s : FlatFileStore) (e : DirEntry) : Type 0 where
  pub file : List ℕ
  pub at : s.files e.file_id ≡ some file
  pub len_matches : e.len ≡ length file

abbrev pub AllEntries : FlatFileStore → List DirEntry → Type 0
AllEntries s [] = Unit {0}
AllEntries s (e ∷ es) = IsEntry s e × AllEntries s es

abbrev pub HasId : ℕ → List DirEntry → Type 0
HasId i [] = ⊥
HasId i (e ∷ es) = (e.file_id ≡ i) ⊎ HasId i es

record IsLatestEntry (s : FlatFileStore) (last : DirEntry) (es : List DirEntry) (r : DirEntry)
    : Type 0 where
  found : newest (some last) es ≡ some r
  entry : IsEntry s r
  above_last : last.file_id ≤ r.file_id
  above_all : (i : ℕ) → HasId i es → i ≤ r.file_id

newest-IsLatestEntry :
    (s : FlatFileStore) (last : DirEntry) (es : List DirEntry)
    → IsEntry s last
    → AllEntries s es
    → (r : DirEntry) × IsLatestEntry s last es r
unfolding newest
newest-IsLatestEntry s last [] h hs = (
  last,
  record { found = refl; entry = h; above_last = omega arith; above_all = λ i b. absurd b },
)
newest-IsLatestEntry s last (e ∷ es) h (he, hs) = elim (Bool-cases (leb e.file_id last.file_id)) [
  | inl older ↦
      let (r, n) = newest-IsLatestEntry s last es h hs in
      (
        r,
        record {
          found = rw older n.found;
          entry = n.entry;
          above_last = n.above_last;
          above_all = λ i. elim [ inl p ↦ ground (arith, n.above_last) | inr q ↦ n.above_all i q ];
        },
      )
  | inr newer ↦
      let (r, n) = newest-IsLatestEntry s e es he hs in
      (
        r,
        record {
          found = rw newer n.found;
          entry = n.entry;
          above_last = ground (arith, n.above_last);
          above_all = λ i. elim [ inl p ↦ omega (arith, n.above_last) | inr q ↦ n.above_all i q ];
        },
      )
]

-- No entry lies above the current file.
entry-le-current :
    (s : FlatFileStore) (e : DirEntry) → IsSynced s → IsEntry s e → e.file_id ≤ s.current_file
entry-le-current s e sync h = elim (Bool-cases (leb e.file_id s.current_file)) [
  | inl le ↦ ground arith
  | inr gt ↦ cc (h.at, sync.no_later_file e.file_id (ground arith))
]

-- Let the directory list files of a synced store, in any order, the current one among them. Then a
-- restart finds the current file and its length, or begins the next file if that one is full.
pub locate_active_file-restart :
    (s : FlatFileStore) (entries : List DirEntry)
    → IsSynced s
    → AllEntries s entries
    → HasId s.current_file entries
    → locate_active_file entries s.max_file_size ≡ (
        if leb s.max_file_size s.current_len
        then ((s.current_file + 1) % 2 ^ 32, 0)
        else (s.current_file, s.current_len))
unfolding locate_active_file newest
locate_active_file-restart s [] sync all has = absurd has
locate_active_file-restart s (e ∷ es) sync (he, hes) has =
    let (r, n) = newest-IsLatestEntry s e es he hes in
    let upper : r.file_id ≤ s.current_file = entry-le-current s r sync n.entry in
    let lower : s.current_file ≤ r.file_id = current_le r n has in
    let id : r.file_id ≡ s.current_file = omega arith in
    let len : r.len ≡ s.current_len = cc (id, n.entry.at, n.entry.len_matches, sync.len_matches) in
    rw (n.found, locate_active_file, id, len)
  where
    current_le :
        (r : DirEntry)
        → IsLatestEntry s e es r
        → HasId s.current_file (e ∷ es)
        → s.current_file ≤ r.file_id
    current_le r n (inl p) = omega (arith, n.above_last)
    current_le r n (inr q) = n.above_all s.current_file q
