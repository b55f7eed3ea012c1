-- ===== src/Primitives/Transaction/Parts.antt =====
-- crates/primitives/src/transaction.rs: inputs, outputs and the Sapling descriptions.
use fluxd_rust.Prelude.{ℕ, ◌^◌, ◌≤◌, ◌<◌, ◌≡◌, refl, List, ◌++◌, length}
use fluxd_rust.Prelude.Int.{ℤ}
use fluxd_rust.Primitives.Bytes.{to_le_bytes, as_unsigned, IsSigned}
use fluxd_rust.Primitives.Encoding.{
  Encoder, ◌▷◌, write_bytes, write_u32_le, write_i64_le, write_var_bytes, write_hash_le, Reader,
  ◌>>=◌, pure, read_u32_le, read_i64_le, read_var_bytes, read_fixed, read_hash_le, max_compact_size,
}
use fluxd_rust.Primitives.Encoding.Writes.{writes, var_bytes}
use fluxd_rust.Primitives.Encoding.VarInt.{Reads-read_var_bytes}
use fluxd_rust.Primitives.Encoding.Reads.{
  Reads, Reads-bind, Reads-map, Reads-read_u32_le, Reads-read_i64_le, Reads-read_hash_le,
  Reads-read_fixed,
}
use fluxd_rust.Primitives.OutPoint
use fluxd_rust.Primitives.OutPoint.{OutPoint, IsOutPoint}

abbrev pub sapling_enc_ciphertext_size : ℕ
sapling_enc_ciphertext_size = 580

abbrev pub sapling_out_ciphertext_size : ℕ
sapling_out_ciphertext_size = 80

abbrev pub groth_proof_size : ℕ
groth_proof_size = 192

pub record TxIn : Type 0 where
  pub prevout : OutPoint
  pub script_sig : List ℕ
  pub sequence : ℕ

pub record TxOut : Type 0 where
  pub value : ℤ
  pub script_pubkey : List ℕ

pub record SpendDescription : Type 0 where
  pub cv : List ℕ
  pub anchor : List ℕ
  pub nullifier : List ℕ
  pub rk : List ℕ
  pub zkproof : List ℕ
  pub spend_auth_sig : List ℕ

pub record OutputDescription : Type 0 where
  pub cv : List ℕ
  pub cm : List ℕ
  pub ephemeral_key : List ℕ
  pub enc_ciphertext : List ℕ
  pub out_ciphertext : List ℕ
  pub zkproof : List ℕ

unfoldable pub write_tx_in : TxIn → Encoder → Encoder
unfolding OutPoint.consensus_encode
write_tx_in i e =
    e ▷ OutPoint.consensus_encode i.prevout ▷ write_var_bytes i.script_sig ▷ write_u32_le i.sequence

unfoldable pub read_tx_in : Reader TxIn
unfolding ◌>>=◌ pure OutPoint.consensus_decode read_var_bytes read_u32_le
read_tx_in = do
  prevout ← OutPoint.consensus_decode
  script_sig ← read_var_bytes
  sequence ← read_u32_le
  pure (record { prevout = prevout; script_sig = script_sig; sequence = sequence })

unfoldable pub write_tx_out : TxOut → Encoder → Encoder
write_tx_out o e = e ▷ write_i64_le o.value ▷ write_var_bytes o.script_pubkey

unfoldable pub read_tx_out : Reader TxOut
unfolding ◌>>=◌ pure read_i64_le read_var_bytes
read_tx_out = do
  value ← read_i64_le
  script_pubkey ← read_var_bytes
  pure (record { value = value; script_pubkey = script_pubkey })

unfoldable pub write_spend : SpendDescription → Encoder → Encoder
write_spend s e =
    e
    ▷ write_hash_le s.cv
    ▷ write_hash_le s.anchor
    ▷ write_hash_le s.nullifier
    ▷ write_hash_le s.rk
    ▷ write_bytes s.zkproof
    ▷ write_bytes s.spend_auth_sig

unfoldable pub read_spend : Reader SpendDescription
unfolding ◌>>=◌ pure read_hash_le read_fixed
read_spend = do
  cv ← read_hash_le
  anchor ← read_hash_le
  nullifier ← read_hash_le
  rk ← read_hash_le
  zkproof ← read_fixed groth_proof_size
  spend_auth_sig ← read_fixed 64
  pure (record {
    cv = cv;
    anchor = anchor;
    nullifier = nullifier;
    rk = rk;
    zkproof = zkproof;
    spend_auth_sig = spend_auth_sig;
  })

unfoldable pub write_output : OutputDescription → Encoder → Encoder
write_output o e =
    e
    ▷ write_hash_le o.cv
    ▷ write_hash_le o.cm
    ▷ write_hash_le o.ephemeral_key
    ▷ write_bytes o.enc_ciphertext
    ▷ write_bytes o.out_ciphertext
    ▷ write_bytes o.zkproof

unfoldable pub read_output : Reader OutputDescription
unfolding ◌>>=◌ pure read_hash_le read_fixed
read_output = do
  cv ← read_hash_le
  cm ← read_hash_le
  ephemeral_key ← read_hash_le
  enc_ciphertext ← read_fixed sapling_enc_ciphertext_size
  out_ciphertext ← read_fixed sapling_out_ciphertext_size
  zkproof ← read_fixed groth_proof_size
  pure (record {
    cv = cv;
    cm = cm;
    ephemeral_key = ephemeral_key;
    enc_ciphertext = enc_ciphertext;
    out_ciphertext = out_ciphertext;
    zkproof = zkproof;
  })

-- The sizes and ranges that the fields' types give, and a script within the reader's limit.
pub record IsTxIn (i : TxIn) : Type 0 where
  pub prevout_sizes : IsOutPoint i.prevout
  pub script_size : length i.script_sig ≤ max_compact_size
  pub sequence_range : i.sequence < 2 ^ 32

pub record IsTxOut (o : TxOut) : Type 0 where
  pub value_range : IsSigned (2 ^ 64) o.value
  pub script_size : length o.script_pubkey ≤ max_compact_size

pub record IsSpendDescription (s : SpendDescription) : Type 0 where
  pub cv_size : length s.cv ≡ 32
  pub anchor_size : length s.anchor ≡ 32
  pub nullifier_size : length s.nullifier ≡ 32
  pub rk_size : length s.rk ≡ 32
  pub zkproof_size : length s.zkproof ≡ groth_proof_size
  pub spend_auth_sig_size : length s.spend_auth_sig ≡ 64

pub record IsOutputDescription (o : OutputDescription) : Type 0 where
  pub cv_size : length o.cv ≡ 32
  pub cm_size : length o.cm ≡ 32
  pub ephemeral_key_size : length o.ephemeral_key ≡ 32
  pub enc_ciphertext_size : length o.enc_ciphertext ≡ sapling_enc_ciphertext_size
  pub out_ciphertext_size : length o.out_ciphertext ≡ sapling_out_ciphertext_size
  pub zkproof_size : length o.zkproof ≡ groth_proof_size

abbrev pub tx_in_bytes : TxIn → List ℕ
tx_in_bytes i = OutPoint.bytes i.prevout ++ (var_bytes i.script_sig ++ to_le_bytes 4 i.sequence)

abbrev pub tx_out_bytes : TxOut → List ℕ
tx_out_bytes o = to_le_bytes 8 (as_unsigned (2 ^ 64) o.value) ++ var_bytes o.script_pubkey

abbrev pub spend_bytes : SpendDescription → List ℕ
spend_bytes s = s.cv ++ (s.anchor ++ (s.nullifier ++ (s.rk ++ (s.zkproof ++ s.spend_auth_sig))))

abbrev pub output_bytes : OutputDescription → List ℕ
output_bytes o =
    o.cv ++ (o.cm ++ (o.ephemeral_key ++ (o.enc_ciphertext ++ (o.out_ciphertext ++ o.zkproof))))

pub buf-write_tx_in : (i : TxIn) (e : Encoder) → (write_tx_in i e).buf ≡ e.buf ++ tx_in_bytes i
unfolding write_tx_in
buf-write_tx_in i e = simp writes

pub buf-write_tx_out : (o : TxOut) (e : Encoder) → (write_tx_out o e).buf ≡ e.buf ++ tx_out_bytes o
unfolding write_tx_out
buf-write_tx_out o e = simp writes

pub buf-write_spend :
    (s : SpendDescription) (e : Encoder) → (write_spend s e).buf ≡ e.buf ++ spend_bytes s
unfolding write_spend
buf-write_spend s e = simp writes

pub buf-write_output :
    (o : OutputDescription) (e : Encoder) → (write_output o e).buf ≡ e.buf ++ output_bytes o
unfolding write_output
buf-write_output o e = simp writes

pub Reads-read_tx_in : (i : TxIn) → IsTxIn i → Reads read_tx_in (tx_in_bytes i) i
unfolding read_tx_in
Reads-read_tx_in i h = Reads-bind _ (OutPoint.Reads-consensus_decode i.prevout h.prevout_sizes) (
    Reads-bind _ (Reads-read_var_bytes i.script_sig h.script_size)
      (Reads-map _ (Reads-read_u32_le i.sequence h.sequence_range) refl))

pub Reads-read_tx_out : (o : TxOut) → IsTxOut o → Reads read_tx_out (tx_out_bytes o) o
unfolding read_tx_out
Reads-read_tx_out o h =
    Reads-bind _ (Reads-read_i64_le o.value h.value_range)
      (Reads-map _ (Reads-read_var_bytes o.script_pubkey h.script_size) refl)

pub Reads-read_spend :
    (s : SpendDescription) → IsSpendDescription s → Reads read_spend (spend_bytes s) s
unfolding read_spend
Reads-read_spend s h = Reads-bind _ (Reads-read_hash_le s.cv h.cv_size) (
    Reads-bind _ (Reads-read_hash_le s.anchor h.anchor_size) (
      Reads-bind _ (Reads-read_hash_le s.nullifier h.nullifier_size) (
        Reads-bind _ (Reads-read_hash_le s.rk h.rk_size) (
          Reads-bind _ (Reads-read_fixed groth_proof_size s.zkproof h.zkproof_size)
            (Reads-map _ (Reads-read_fixed 64 s.spend_auth_sig h.spend_auth_sig_size) refl)))))

pub Reads-read_output :
    (o : OutputDescription) → IsOutputDescription o → Reads read_output (output_bytes o) o
unfolding read_output
Reads-read_output o h = Reads-bind _ (Reads-read_hash_le o.cv h.cv_size) (
    Reads-bind _ (Reads-read_hash_le o.cm h.cm_size) (
      Reads-bind _ (Reads-read_hash_le o.ephemeral_key h.ephemeral_key_size) (
        Reads-bind _ (Reads-read_fixed _ o.enc_ciphertext h.enc_ciphertext_size) (
          Reads-bind _ (Reads-read_fixed _ o.out_ciphertext h.out_ciphertext_size)
            (Reads-map _ (Reads-read_fixed _ o.zkproof h.zkproof_size) refl)))))
