-- ===== src/Primitives/Transaction/Errors.antt =====
-- crates/primitives/src/transaction.rs: the errors, and `?` on an error of the decoder.
use Prim.Native.String.{String}
use fluxd_rust.Prelude.{ℕ, List, refl}
use fluxd_rust.Prelude.Result.{map_err}
use fluxd_rust.Primitives.Encoding.{DecodeError, display, Reader, ReaderOf}
use fluxd_rust.Primitives.Encoding.Reads.{Reads}

pub data TransactionDecodeError : Type 0 where
  decode_error : DecodeError → TransactionDecodeError
  invalid_transaction_format : String → TransactionDecodeError

pub data TransactionEncodeError : Type 0 where
  invalid_format : String → TransactionEncodeError

-- The text that `Display` writes.
unfoldable pub display_decode_error : TransactionDecodeError → String
unfolding display
display_decode_error (decode_error error) = display error
display_decode_error (invalid_transaction_format message) = message

-- `?` on an error that `From` converts.
unfoldable pub lift_with : {E F A : Type 0} → (E → F) → ReaderOf E A → ReaderOf F A
lift_with from m d = map_err from (m d)

unfoldable pub lift : {A : Type 0} → Reader A → ReaderOf TransactionDecodeError A
unfolding lift_with
lift m = lift_with decode_error m

pub Reads-lift_with :
    {E F A : Type 0} (from : E → F) {m : ReaderOf E A} {bs : List ℕ} {a : A}
    → Reads m bs a
    → Reads (lift_with from m) bs a
unfolding lift_with
Reads-lift_with from r = record {
  run = λ d more h. let (d', e, h') = r.run d more h in (d', rw e refl, h');
}

pub Reads-lift :
    {A : Type 0} {m : Reader A} {bs : List ℕ} {a : A} → Reads m bs a → Reads (lift m) bs a
unfolding lift
Reads-lift r = Reads-lift_with decode_error r
