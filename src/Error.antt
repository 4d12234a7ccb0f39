-- ===== src/Error.antt =====
-- crates/cory-core/src/error.rs, and actions that may fail over a state.
use cory.Base.{ℕ, ◌≡◌, refl, ◌⊎◌, inl, inr}
use cory.Base.Text.{Text}
use cory.Types.{Txid}

-- An i64, `negsuc n` is -(n + 1).
pub data ℤ : Type 0 where
  pos : ℕ → ℤ
  negsuc : ℕ → ℤ

-- The reqwest error of `Transport` and the io error of `Io` are known by their messages.
pub data RpcError : Type 0 where
  transport : Text → RpcError
  server_error : ℤ → Text → RpcError
  invalid_response : Text → RpcError
  missing_batch_item : ℕ → RpcError

pub data CoreError : Type 0 where
  rpc : RpcError → CoreError
  tx_not_found : Txid → CoreError
  invalid_tx_data : Text → CoreError
  label_parse : ℕ → Text → CoreError
  io : Text → CoreError

-- Result<A, CoreError>
pub data Result (A : Type 0) : Type 0 where
  ok : A → Result A
  err : CoreError → Result A

-- `?` on a Result.
infixl 10 ◌>>=◌
abbrev pub ◌>>=◌ : {A B : Type 0} → Result A → (A → Result B) → Result B
ok a >>= f = f a
err e >>= f = err e

pub Result-cases :
    {A : Type 0} (r : Result A) → ((a : A) × (r ≡ ok a)) ⊎ ((e : CoreError) × (r ≡ err e))
Result-cases (ok a) = inl (a, refl)
Result-cases (err e) = inr (e, refl)

-- A `?` that has not returned early.
module _ {A B : Type 0} (next : A → Result B) {b : B} where
  pub passed : (r : Result A) → (r >>= next) ≡ ok b → (a : A) × (r ≡ ok a) × (next a ≡ ok b)
  passed (ok a) e = (a, refl, e)
  passed (err x) e = cc

pub ok-injective : {A : Type 0} {a b : A} → ok a ≡ ok b → a ≡ b
ok-injective h = cc
