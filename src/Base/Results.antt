-- ===== src/Base/Results.antt =====
-- Code that may raise. An exception inside a `with conn` block rolls the transaction back, so an
-- operation on a database that raises returns no new state: the caller keeps the one it had.
use mathlib.Core.Path.{◌≡◌, refl}

-- Python's and SQLite's errors, those of the OAuth framework, and the codes of `MemeMCPError`.
pub data Error : Type 0 where
  integrity_error type_error value_error key_error index_error overflow_error rate_limited : Error
  invalid_grant invalid_redirect_uri : Error
  upload_rejected forbidden_not_allowlisted : Error
  unauthorized forbidden not_found invalid_input vlm_output_suspect duplicate_template : Error

-- What a call gives, or what it raises.
pub data Result {ℓ} (V : Type ℓ) : Type ℓ where
  err : Error → Result V
  ok : V → Result V

infixl 10 ◌>>=◌
abbrev pub ◌>>=◌ {κ ℓ} : {W : Type κ} {V : Type ℓ} → Result V → (V → Result W) → Result W
err raised >>= next = err raised
ok value >>= next = next value

pub >>=-eq-ok {κ ℓ} :
    {W : Type κ} {V : Type ℓ} {w : W} (call : Result V) (next : V → Result W)
    → (call >>= next) ≡ ok w
    → (value : V) × (call ≡ ok value) × (next value ≡ ok w)
>>=-eq-ok (err raised) next h = cc
>>=-eq-ok (ok value) next h = (value, refl, h)
