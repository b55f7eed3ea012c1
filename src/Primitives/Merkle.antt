-- ===== src/Primitives/Merkle.antt =====
-- crates/primitives/src/merkleblock.rs: the partial Merkle tree that proves transactions of a block.
-- `sha256d`, which a third-party crate computes, is a parameter.
pub mod Build
pub mod Taken
pub mod Extract
pub mod Ranges
pub mod Roundtrip
use Prim.Native.String.{String}
use Prim.Native.Nat.{max}
use fluxd_rust.Prelude.{
  ℕ, zero, suc, ◌+◌, ◌-◌, ◌*◌, ◌/◌, ◌%◌, ◌^◌, min, List, [], ◌∷◌, ◌++◌, Bool, true, false, not,
  ◌&&◌, ◌||◌, length, get_or, replicate, Option, none, some, if◌then◌else◌, ◌==◌, ltb, leb,
}
use fluxd_rust.Prelude.Result.{Result, ok, err, ◌>>=◌, ◌>>◌, fail_if}
use fluxd_rust.Primitives.Encoding.{DecodeError, invalid_data, size_too_large}

pub record PartialMerkleTree : Type 0 where
  pub n_transactions : ℕ
  pub bits : List Bool
  pub hashes : List (List ℕ)

abbrev pub u32_max : ℕ
u32_max = 2 ^ 32 - 1

abbrev pub u64_max : ℕ
u64_max = 2 ^ 64 - 1

-- `1 << height` is none from 64 on; the sum saturates in u64, and the result must fit u32.
unfoldable pub calc_tree_width : ℕ → ℕ → ℕ
calc_tree_width n height =
    if leb 64 height then 0 else min (min (n + (2 ^ height - 1)) u64_max / 2 ^ height) u32_max

-- `while calc_tree_width(n, height) > 1 { height += 1; }`
unfoldable pub height_loop : ℕ → ℕ → ℕ → ℕ
height_loop zero n height = height
height_loop (suc fuel) n height =
    let next = height_loop fuel n (height + 1) in
    if ltb 1 (calc_tree_width n height) then next else height

-- The width is 0 from height 64 on, so that 64 rounds are enough.
unfoldable pub calc_tree_height : ℕ → ℕ
calc_tree_height n = height_loop 64 n 0

abbrev pub left_of : ℕ → ℕ
left_of pos = min (pos * 2) u32_max

abbrev pub right_of : ℕ → ℕ
right_of pos = min (left_of pos + 1) u32_max

unfoldable pub bytes_eq : List ℕ → List ℕ → Bool
bytes_eq [] [] = true
bytes_eq [] (y ∷ ys) = false
bytes_eq (x ∷ xs) [] = false
bytes_eq (x ∷ xs) (y ∷ ys) = x == y && bytes_eq xs ys

-- `any matches[start..start + count]`
unfoldable pub any_match : List Bool → ℕ → ℕ → Bool
any_match matches start zero = false
any_match matches start (suc count) =
    get_or matches start false || any_match matches (start + 1) count

abbrev pub zero_hash : List ℕ
zero_hash = replicate 32 0

abbrev pub max_transactions : ℕ
max_transactions = 2_000_000 / 60

-- The variables of `traverse_and_extract`.
pub record Extraction : Type 0 where
  pub bits_used : ℕ
  pub hashes_used : ℕ
  pub matches_out : List (List ℕ)
  pub bad : Bool

module _ (sha256d : List ℕ → List ℕ) where
  unfoldable pub merkle_hash_pair : List ℕ → List ℕ → List ℕ
  merkle_hash_pair left right = sha256d (left ++ right)

  module _ (n : ℕ) (txids : List (List ℕ)) where
    -- `txids[pos]` would panic behind the end of the list, where this is the zero hash: on no transactions.
    unfoldable pub calc_hash : ℕ → ℕ → List ℕ
    calc_hash zero pos = get_or txids pos zero_hash
    calc_hash (suc height) pos =
        let left = calc_hash height (left_of pos) in
        let right = calc_hash height (right_of pos) in
        merkle_hash_pair left
          (if ltb (right_of pos) (calc_tree_width n height) then right else left)

    -- The range of leaves below a node is cut off at `n`.
    abbrev pub range_start : ℕ → ℕ → ℕ
    range_start height pos = pos * 2 ^ height

    abbrev pub range_size : ℕ → ℕ → ℕ
    range_size height pos = min ((pos + 1) * 2 ^ height) n - pos * 2 ^ height

    module _ (matches : List Bool) where
      abbrev pub parent_of_match : ℕ → ℕ → Bool
      parent_of_match height pos =
          any_match matches (range_start height pos) (range_size height pos)

      -- The vectors are passed along: each call pushes to their ends.
      unfoldable pub traverse_and_build :
          ℕ → ℕ → List Bool × List (List ℕ) → List Bool × List (List ℕ)
      traverse_and_build zero pos (bits, hashes) =
          (bits ++ (parent_of_match zero pos ∷ []), hashes ++ (calc_hash zero pos ∷ []))
      traverse_and_build (suc height) pos (bits, hashes) =
          let here = bits ++ (parent_of_match (suc height) pos ∷ []) in
          let stop : List Bool × List (List ℕ) =
            (here, hashes ++ (calc_hash (suc height) pos ∷ [])) in
          let left = traverse_and_build height (left_of pos) (here, hashes) in
          let both = traverse_and_build height (right_of pos) left in
          if parent_of_match (suc height) pos
          then (if ltb (right_of pos) (calc_tree_width n height) then both else left)
          else stop

  unfoldable pub from_txids : List (List ℕ) → List Bool → Result DecodeError PartialMerkleTree
  from_txids txids matches = do
    fail_if (not (length txids == length matches)) (invalid_data "txids/matches length mismatch")
    fail_if (ltb u32_max (length txids)) size_too_large
    let n = length txids
    let built = traverse_and_build n txids matches (calc_tree_height n) 0 ([], [])
    ok (record { n_transactions = n; bits = built.0; hashes = built.1 })

  module _ (t : PartialMerkleTree) where
    abbrev pub mark_bad : Extraction → Extraction
    mark_bad s = record s { bad = true }

    -- The leaf and the node without a match below it: one hash is taken.
    unfoldable pub take_hash : Bool → Extraction → List ℕ × Extraction
    take_hash is_match s =
        if leb (length t.hashes) s.hashes_used
        then (zero_hash, mark_bad s)
        else (let hash = get_or t.hashes s.hashes_used zero_hash in
            let s' = record s { hashes_used = s.hashes_used + 1 } in
            (
              hash,
              if is_match then record s' { matches_out = s.matches_out ++ (hash ∷ []) } else s',
            ))

    -- Behind the right child: equal hashes are refused.
    unfoldable pub join_right : List ℕ → List ℕ × Extraction → List ℕ × Extraction
    join_right left (right, s) =
        (merkle_hash_pair left right, if bytes_eq right left then mark_bad s else s)

    unfoldable pub traverse_and_extract : ℕ → ℕ → Extraction → List ℕ × Extraction
    traverse_and_extract zero pos s =
        if leb (length t.bits) s.bits_used
        then (zero_hash, mark_bad s)
        else take_hash (get_or t.bits s.bits_used false) (record s { bits_used = s.bits_used + 1 })
    traverse_and_extract (suc height) pos s =
        let s' = record s { bits_used = s.bits_used + 1 } in
        let left = traverse_and_extract height (left_of pos) s' in
        let right = traverse_and_extract height (right_of pos) left.1 in
        if leb (length t.bits) s.bits_used
        then (zero_hash, mark_bad s)
        else if get_or t.bits s.bits_used false
        then (if ltb (right_of pos) (calc_tree_width t.n_transactions height)
            then join_right left.0 right
            else (merkle_hash_pair left.0 left.0, left.1))
        else take_hash false s'

    abbrev pub start : Extraction
    start = record { bits_used = 0; hashes_used = 0; matches_out = []; bad = false }

    -- `None` on each of the malformed shapes, and when bits or hashes are left over.
    unfoldable pub extract_matches : Option (List ℕ × List (List ℕ))
    extract_matches =
        let run = traverse_and_extract (calc_tree_height t.n_transactions) 0 start in
        if t.n_transactions == 0
        then none
        else if ltb max_transactions t.n_transactions
        then none
        else if ltb t.n_transactions (length t.hashes)
        then none
        else if ltb (length t.bits) (length t.hashes)
        then none
        else if run.1.bad
        then none
        else if not ((run.1.bits_used + 7) / 8 == (length t.bits + 7) / 8)
        then none
        else if not (run.1.hashes_used == length t.hashes)
        then none
        else some (run.0, run.1.matches_out)
