-- ===== src/Server/Token.antt =====
-- crates/cory/src/server/auth.rs: what check_auth refuses.
use cory.Base.{[], ◌≡◌, ◌≢◌, refl, Option, none, some, inl, inr, Bool-cases, ◌==◌, ==_iff}
use cory.Base.Text.{Text, text, text_eq}
use cory.Server.{AppError, err, check_auth}

abbrev pub no_token : AppError
no_token = AppError.unauthorized (text "invalid or missing X-API-Token")

pub check_auth-unauthorized :
    (api_token : Text) (header : Option Text)
    → [] ≢ api_token
    → header ≢ some api_token
    → check_auth api_token header ≡ err no_token
unfolding check_auth
check_auth-unauthorized api_token none set other = elim (Bool-cases ([] == api_token)) [
  | inl same ↦ absurd (set ((==_iff [] api_token).0 same))
  | inr differ ↦ rw differ refl
]
check_auth-unauthorized api_token (some token) set other = elim (Bool-cases (token == api_token)) [
  | inl same ↦ absurd (other (cc ((==_iff token api_token).0 same)))
  | inr differ ↦ rw differ refl
]
