-- ===== src/Prelude/Result.antt =====
-- Rust's `Result<A, E>` with the `?` operator as the bind of a `do` block.
use mathlib.Core.Bool.{Bool, true, false}
use mathlib.Core.Path.{◌≡◌, refl}
use mathlib.Core.Option.{Option, none, some}

pub data Result {ℓ} (E : Type 0) (A : Type ℓ) : Type ℓ where
  ok : A → Result E A
  err : E → Result E A

pub ok-injective : {E A : Type 0} {x y : A} → ◌≡◌ {A = Result E A} (ok x) (ok y) → x ≡ y
ok-injective h = cc

-- `map_err`
abbrev pub map_err {ℓ} : {E F : Type 0} {A : Type ℓ} → (E → F) → Result E A → Result F A
map_err f (ok a) = ok a
map_err f (err e) = err (f e)

-- `Result::ok`
abbrev pub to_option {ℓ} : {E : Type 0} {A : Type ℓ} → Result E A → Option A
to_option (ok a) = some a
to_option (err e) = none

infixl 5 ◌>>=◌ ◌>>◌
abbrev pub ◌>>=◌ {ℓ κ} :
    {E : Type 0} {A : Type ℓ} {B : Type κ} → Result E A → (A → Result E B) → Result E B
err reason >>= next = err reason
ok value >>= next = next value

-- `Result::and_then`, by its name where a reader's bind has the operator.
abbrev pub and_then : {E A B : Type 0} → Result E A → (A → Result E B) → Result E B
and_then r next = r >>= next

-- A chain that ends well went well at each step.
pub >>=-eq-ok :
    {E A B : Type 0} (r : Result E A) (next : A → Result E B) {b : B}
    → (r >>= next) ≡ ok b
    → (a : A) × (r ≡ ok a) × (next a ≡ ok b)
>>=-eq-ok (ok a) next h = (a, refl, h)
>>=-eq-ok (err e) next h = cc

abbrev pub ◌>>◌ {ℓ} : {E : Type 0} {B : Type ℓ} → Result E (Unit {0}) → Result E B → Result E B
checked >> next = checked >>= λ _. next

-- `if bad { return Err(e); }`
abbrev pub fail_if : {E : Type 0} → Bool → E → Result E (Unit {0})
fail_if false reason = ok tt
fail_if true reason = err reason

pub fail_if-eq-ok : {E : Type 0} (b : Bool) (reason : E) → fail_if b reason ≡ ok tt → b ≡ false
fail_if-eq-ok false reason h = refl
fail_if-eq-ok true reason h = cc
