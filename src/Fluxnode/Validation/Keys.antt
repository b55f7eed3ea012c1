-- ===== src/Fluxnode/Validation/Keys.antt =====
-- The key that crates/fluxnode/src/validation.rs selects for a time.
use fluxd_rust.Prelude.{
  ℕ, ◌≤◌, ◌<◌, ◌≡◌, ◌⊎◌, refl, ap, List, [], ◌∷◌, ◌++◌, ◌&&◌, some, leb, inl, inr, Bool-cases,
  arith,
}
use fluxd_rust.Primitives.Encoding.Reads.{All}
use fluxd_rust.Consensus.Params.{TimedPublicKey}
use fluxd_rust.Fluxnode.Validation.{newer, latest, select_active_key}

-- The key stands in the list and has not to wait for its time; no key before it that is valid then
-- is newer, and every key behind it that is valid then is older.
pub record IsLatest (time : ℕ) (keys : List TimedPublicKey) (key : TimedPublicKey) : Type 0 where
  pub before : List TimedPublicKey
  pub after : List TimedPublicKey
  pub place : keys ≡ before ++ (key ∷ after)
  pub valid : key.valid_from ≤ time
  pub earlier : All (λ other. other.valid_from ≤ time → other.valid_from ≤ key.valid_from) before
  pub later : All (λ other. other.valid_from ≤ time → other.valid_from < key.valid_from) after

-- A key in front, no newer than the latest one.
IsLatest-cons :
    (time : ℕ) (key front : TimedPublicKey) (keys : List TimedPublicKey)
    → (front.valid_from ≤ time → front.valid_from ≤ key.valid_from)
    → IsLatest time keys key
    → IsLatest time (front ∷ keys) key
IsLatest-cons time key front keys old l = record {
  before = front ∷ l.before;
  after = l.after;
  place = ap (λ (ks : List TimedPublicKey). front ∷ ks) l.place;
  valid = l.valid;
  earlier = (old, l.earlier);
  later = l.later;
}

latest_step :
    (time : ℕ) (current key : TimedPublicKey) (keys : List TimedPublicKey)
    → latest time current (key ∷ keys) ≡ latest time (newer time current key) keys
unfolding latest
latest_step time current key keys = refl

-- The loop keeps its key when all others that are valid are older, or ends with the latest one.
latest_lem :
    (time : ℕ) (current : TimedPublicKey) (keys : List TimedPublicKey)
    → current.valid_from ≤ time
    → ((latest time current keys ≡ current)
        × All (λ other. other.valid_from ≤ time → other.valid_from < current.valid_from) keys)
      ⊎ ((current.valid_from ≤ (latest time current keys).valid_from)
          × IsLatest time keys (latest time current keys))
unfolding newer
latest_lem time current [] h = unfold latest in inl (refl, tt)
latest_lem time current (key ∷ keys) h =
    rw (latest_step time current key keys)
      (elim (Bool-cases (leb key.valid_from time && leb current.valid_from key.valid_from)) [
        | inl taken ↦
            let now : key.valid_from ≤ time = ground arith in
            let grown : current.valid_from ≤ key.valid_from = ground arith in
            rw taken (elim (latest_lem time key keys now) [
              | inl (same, older) ↦ inr (
                  rw same (
                    grown,
                    record {
                      before = [];
                      after = keys;
                      place = refl;
                      valid = now;
                      earlier = tt;
                      later = older;
                    },
                  ))
              | inr (more, l) ↦
                  inr (omega (arith, grown, more), IsLatest-cons time _ key keys (λ t. more) l)
            ])
        | inr passed ↦ rw passed (elim (latest_lem time current keys h) [
          | inl (same, older) ↦ inl (same, ((λ t. ground arith), older))
          | inr (more, l) ↦
              let old : key.valid_from ≤ time → key.valid_from ≤ current.valid_from =
                λ t. ground arith in
              inr (more, IsLatest-cons time _ key keys (λ t. omega (arith, old t, more)) l)
        ])
      ])

-- Where the first of the keys is valid at a time, the one that is selected is a key of the list and
-- valid at that time; no key before it that is valid then is newer, and every key behind it that is
-- valid then is older.
pub select_active_key-IsLatest :
    (time : ℕ) (first : TimedPublicKey) (rest : List TimedPublicKey)
    → first.valid_from ≤ time
    → (key : TimedPublicKey) × (select_active_key time (first ∷ rest) ≡ some key)
      × IsLatest time (first ∷ rest) key
unfolding select_active_key
select_active_key-IsLatest time first rest h = (
  latest time first (first ∷ rest),
  refl,
  elim (latest_lem time first (first ∷ rest) h) [
    | inl (same, older) ↦ absurd (omega (arith, older.0 h))
    | inr (more, l) ↦ l
  ],
)
