-- ===== src/Chainstate/Undo/Roundtrip.antt =====
-- The undo record of undo.rs is read back as it was written.
use Prim.Native.String.{String}
use fluxd_rust.Prelude.{
  ℕ, ◌%◌, ◌^◌, ◌≤◌, ◌<◌, ◌≡◌, refl, ◌∙◌, List, [], ◌∷◌, ◌++◌, append-nil, append_assoc, length,
  Bool, false, not, Option, none, some, arith, ◌⊎◌, inl, inr, ◌&&◌, ◌==◌,
}
use fluxd_rust.Prelude.Result.{Result, ok}
use fluxd_rust.Primitives.Bytes.{to_le_bytes}
use fluxd_rust.Primitives.Encoding.{Encoder, Reader, DecodeError, max_compact_size, read_many}
use fluxd_rust.Primitives.Encoding.Writes.{writes, var_bytes}
use fluxd_rust.Primitives.Encoding.Reads.{
  Reads, Reads-bind, Reads-then, Reads-fail_if, Reads-map, Reads-pure, Reads-read_u8,
  Reads-read_u32_le, Reads-read_many, All, concat_map,
}
use fluxd_rust.Primitives.Encoding.VarInt.{Reads-read_var_bytes}
use fluxd_rust.Primitives.Encoding.Ends.{decode-Reads}
use fluxd_rust.Primitives.OutPoint
use fluxd_rust.Primitives.OutPoint.{OutPoint, IsOutPoint}
use fluxd_rust.Fluxnode.Record
use fluxd_rust.Fluxnode.Record.{FluxnodeRecord, decode_fluxnode_record}
use fluxd_rust.Fluxnode.Record.Formats
use fluxd_rust.Fluxnode.Record.Formats.{IsFluxnodeRecord}
use fluxd_rust.Chainstate.Utxo
use fluxd_rust.Chainstate.Utxo.{UtxoEntry, IsUtxoEntry, decode_utxo_entry}
use fluxd_rust.Primitives.Encoding.Vectors.{buf-write_each}
use fluxd_rust.Chainstate.Undo.{
  SpentOutput, FluxnodeUndo, BlockUndo, block_undo_version, write_spent, write_prev,
  write_fluxnode_undo, encode, or_invalid, read_spent, read_prev, prev_of_flag, read_fluxnode_undo,
  read_counted, read_extra, read_block_undo, decode_block_undo,
}

Reads-or_invalid :
    {A : Type 0} (message : String) {r : Result DecodeError A} {a : A}
    → r ≡ ok a
    → Reads (or_invalid message r) [] a
unfolding or_invalid
Reads-or_invalid message e = record { run = λ d more h. (d, rw e, h) }

pub record IsSpentOutput (s : SpentOutput) : Type 0 where
  pub outpoint_sizes : IsOutPoint s.outpoint
  pub entry_ranges : IsUtxoEntry s.entry
  pub entry_size : length (Utxo.encode s.entry) ≤ max_compact_size

abbrev pub spent_bytes : SpentOutput → List ℕ
spent_bytes s = OutPoint.bytes s.outpoint ++ var_bytes (Utxo.encode s.entry)

buf-write_spent : (s : SpentOutput) (e : Encoder) → (write_spent s e).buf ≡ e.buf ++ spent_bytes s
unfolding write_spent
buf-write_spent s e = simp writes

Reads-read_spent : (s : SpentOutput) → IsSpentOutput s → Reads read_spent (spent_bytes s) s
unfolding read_spent
Reads-read_spent s h = Reads-bind _ (OutPoint.Reads-consensus_decode s.outpoint h.outpoint_sizes) (
    rw (← append-nil (var_bytes (Utxo.encode s.entry))) (
      Reads-bind _ (Reads-read_var_bytes (Utxo.encode s.entry) h.entry_size) (
        Reads-map _
          (Reads-or_invalid "invalid utxo entry in undo"
            (Utxo.decode_utxo_entry-encode s.entry h.entry_ranges))
          refl)))

abbrev pub prev_bytes : Option FluxnodeRecord → List ℕ
prev_bytes none = 0 ∷ []
prev_bytes (some r) = 1 ∷ var_bytes (Record.encode r)

abbrev pub undo_bytes : FluxnodeUndo → List ℕ
undo_bytes u = OutPoint.bytes u.collateral ++ prev_bytes u.prev

buf-write_prev :
    (p : Option FluxnodeRecord) (e : Encoder) → (write_prev p e).buf ≡ e.buf ++ prev_bytes p
unfolding write_prev
buf-write_prev none e = simp writes
buf-write_prev (some r) e = simp writes

buf-write_fluxnode_undo :
    (u : FluxnodeUndo) (e : Encoder) → (write_fluxnode_undo u e).buf ≡ e.buf ++ undo_bytes u
unfolding write_fluxnode_undo
buf-write_fluxnode_undo u e =
    buf-write_prev u.prev (OutPoint.consensus_encode u.collateral e)
    ∙ rw (OutPoint.buf-consensus_encode u.collateral e)
        (append_assoc e.buf (OutPoint.bytes u.collateral) (prev_bytes u.prev))

abbrev pub counted_bytes : {A : Type 0} → (A → List ℕ) → List A → List ℕ
counted_bytes f xs = to_le_bytes 4 (length xs % 2 ^ 32) ++ concat_map f xs

Reads-read_counted :
    {A : Type 0} {m : Reader A} (f : A → List ℕ) (P : A → Type 0)
    → ((a : A) → P a → Reads m (f a) a)
    → (xs : List A) → length xs < 2 ^ 32
    → All P xs
    → Reads (read_counted m) (counted_bytes f xs) xs
unfolding read_counted
Reads-read_counted {m} f P each xs h all =
    let e : length xs % 2 ^ 32 ≡ length xs = omega arith in
    rw e (
      Reads-bind (λ len. read_many len m) (Reads-read_u32_le (length xs) h)
        (Reads-read_many f P each xs all))

known :
    (version : ℕ)
    → (version ≡ 1) ⊎ (version ≡ 2)
    → (not (version == 1) && not (version == block_undo_version)) ≡ false
known version v = ground arith

module _ (is_utf8 : List ℕ → Bool) where
  abbrev pub IsPrev : Option FluxnodeRecord → Type 0
  IsPrev none = Unit {0}
  IsPrev (some r) = IsFluxnodeRecord is_utf8 r × (length (Record.encode r) ≤ max_compact_size)

  pub record IsFluxnodeUndo (u : FluxnodeUndo) : Type 0 where
    pub collateral_sizes : IsOutPoint u.collateral
    pub prev_ranges : IsPrev u.prev

  -- The ranges of the fields' types, and variable parts within the reader's size limit.
  pub record IsBlockUndo (u : BlockUndo) : Type 0 where
    pub sprout_size : length u.prev_sprout_tree ≤ max_compact_size
    pub sapling_size : length u.prev_sapling_tree ≤ max_compact_size
    pub spent_count : length u.spent < 2 ^ 32
    pub fluxnode_count : length u.fluxnode < 2 ^ 32
    pub extra_count : length u.fluxnode_extra < 2 ^ 32
    pub spent_each : All IsSpentOutput u.spent
    pub fluxnode_each : All IsFluxnodeUndo u.fluxnode
    pub extra_each : All IsFluxnodeUndo u.fluxnode_extra

  Reads-read_prev :
      (p : Option FluxnodeRecord) → IsPrev p → Reads (read_prev is_utf8) (prev_bytes p) p
  unfolding read_prev prev_of_flag
  Reads-read_prev none h = Reads-bind (prev_of_flag is_utf8) (Reads-read_u8 0) (Reads-pure none)
  Reads-read_prev (some r) h = Reads-bind (prev_of_flag is_utf8) (Reads-read_u8 1) (
      rw (← append-nil (var_bytes (Record.encode r))) (
        Reads-bind _ (Reads-read_var_bytes (Record.encode r) h.1) (
          Reads-map some
            (Reads-or_invalid "invalid fluxnode record in undo"
              (Formats.decode_fluxnode_record-encode is_utf8 r h.0))
            refl)))

  Reads-read_fluxnode_undo :
      (u : FluxnodeUndo) → IsFluxnodeUndo u → Reads (read_fluxnode_undo is_utf8) (undo_bytes u) u
  unfolding read_fluxnode_undo
  Reads-read_fluxnode_undo u h =
      Reads-bind _ (OutPoint.Reads-consensus_decode u.collateral h.collateral_sizes) (
        Reads-map (λ p. record { collateral = u.collateral; prev = p })
          (Reads-read_prev u.prev h.prev_ranges) refl)

  -- The lists of undo records, and the fields in front of the last one.
  Reads-undos :
      (us : List FluxnodeUndo)
      → length us < 2 ^ 32
      → All IsFluxnodeUndo us
      → Reads (read_counted (read_fluxnode_undo is_utf8)) (counted_bytes undo_bytes us) us
  Reads-undos us = Reads-read_counted undo_bytes IsFluxnodeUndo Reads-read_fluxnode_undo us

  abbrev pub head_bytes : BlockUndo → List ℕ → List ℕ
  head_bytes u rest =
      var_bytes u.prev_sprout_tree
      ++ (var_bytes u.prev_sapling_tree
          ++ (counted_bytes spent_bytes u.spent ++ (counted_bytes undo_bytes u.fluxnode ++ rest)))

  encode-bytes :
      (u : BlockUndo)
      → encode u ≡ block_undo_version ∷ head_bytes u (counted_bytes undo_bytes u.fluxnode_extra)
  unfolding encode
  encode-bytes u = simp (
    writes,
    buf-write_each write_spent spent_bytes buf-write_spent,
    buf-write_each write_fluxnode_undo undo_bytes buf-write_fluxnode_undo,
  )

  Reads-versions :
      (version : ℕ) (u : BlockUndo) {rest : List ℕ} {extra : List FluxnodeUndo}
      → (version ≡ 1) ⊎ (version ≡ 2)
      → IsBlockUndo u
      → Reads (read_extra is_utf8 version) rest extra
      → Reads
          (read_block_undo is_utf8)
          (version ∷ head_bytes u rest)
          (record u { fluxnode_extra = extra })
  unfolding read_block_undo
  Reads-versions version u {rest} v h r = Reads-bind _ (Reads-read_u8 version) (
      Reads-then (Reads-fail_if _ (known version v)) (
        Reads-bind _ (Reads-read_var_bytes u.prev_sprout_tree h.sprout_size) (
          Reads-bind _ (Reads-read_var_bytes u.prev_sapling_tree h.sapling_size) (
            Reads-bind _
              (Reads-read_counted spent_bytes IsSpentOutput Reads-read_spent u.spent h.spent_count
                h.spent_each)
              (Reads-bind _ (Reads-undos u.fluxnode h.fluxnode_count h.fluxnode_each)
                (Reads-map _ r refl))))))

  -- A block's undo record within the ranges of its types and the size limit is read back as it was
  -- written.
  pub decode_block_undo-encode :
      (u : BlockUndo) → IsBlockUndo u → decode_block_undo is_utf8 (encode u) ≡ ok u
  unfolding decode_block_undo
  decode_block_undo-encode u h = rw (encode-bytes u) (
      decode-Reads (
        Reads-versions 2 u (inr refl) h
          (unfold read_extra in Reads-undos u.fluxnode_extra h.extra_count h.extra_each)))

  -- A record of the first version, within the same ranges, which ends behind the fluxnode list, is
  -- read with no extra list.
  decode_first_version :
      (u : BlockUndo)
      → IsBlockUndo u
      → decode_block_undo is_utf8 (1 ∷ head_bytes u []) ≡ ok (record u { fluxnode_extra = [] })
  unfolding decode_block_undo
  decode_first_version u h =
      decode-Reads (Reads-versions 1 u (inl refl) h (unfold read_extra in Reads-pure []))
