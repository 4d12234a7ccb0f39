-- ===== src/Startup/Configured.antt =====
-- The client that the arguments of crates/cory/src/main.rs ask for
-- (crates/cory-core/src/rpc/http_adapter/client.rs and connection.rs).
use cory.Base.{
  ℕ, ◌≡◌, ◌≢◌, refl, sym, ◌∙◌, ap, ap₂, subst, ◌<◌, ◌⊎◌, inl, inr, Option-cases, false, Option,
  none, some, [], ◌∷◌, ◌++◌, arith, nat_beq, nat_beq_iff, ◌==◌, ==_iff, Bool-cases,
}
use cory.Base.Text.{Text, text, text_eq, is_empty, lines, first, push_first, split_once}
use cory.Error.{ok, passed, ok-injective}
use cory.Rpc.Parsing.{checked, required}
use cory.Rpc.Connection.{
  Auth, non_empty, trimmed, cookie_parts, cookie_auth, file_auth, resolve_auth, parse_connection,
}
use cory.Rpc.Client.{HttpRpcClient}
use cory.Rpc.Client.New.{checked_limit, configured, new}

-- Credentials of the first line of a cookie file.
pub record FromCookie (content : Text) (auth : Auth) : Type 0 where
  pub line : Text
  pub user : Text
  pub pass : Text
  pub on_first : trimmed (first (lines content)) ≡ some line
  pub line_parts : line ≡ user ++ 58 ∷ pass
  pub some_user : user ≢ []
  pub some_pass : pass ≢ []
  pub is_auth : auth ≡ some (user, pass)

-- Credentials for a user, a password and a cookie file: both or neither of the first two.
abbrev pub IsAuth : (Text → Text ⊎ Text) → Option Text → Option Text → Option Text → Auth → Type 0
IsAuth read (some user) (some pass) cookie auth = auth ≡ some (user, pass)
IsAuth read none none none auth = auth ≡ none
IsAuth read none none (some path) auth =
    (content : Text) × (read path ≡ inr content) × FromCookie content auth
IsAuth read _ _ _ auth = ⊥

pair_parts : (p q : Text × Text) → some p ≡ some q → (p.0 ≡ q.0) × (p.1 ≡ q.1)
pair_parts p q e = (cc e, cc e)

required-ok :
    {A : Type 0} (message : Text) (o : Option A) (a : A) → required message o ≡ ok a → o ≡ some a
required-ok message none a h = cc h
required-ok message (some b) a h = cc h

checked-ok :
    {A : Type 0} (prefix : Text) (r : Text ⊎ A) (a : A) → checked prefix r ≡ ok a → r ≡ inr a
checked-ok prefix (inl message) a h = cc h
checked-ok prefix (inr b) a h = cc h

is_empty-false : (s : Text) → is_empty s ≡ false → s ≢ []
is_empty-false [] h e = cc h
is_empty-false (c ∷ s) h e = cc e

non_empty-some : (o : Option Text) (s : Text) → non_empty o ≡ some s → o ≡ some s
non_empty-some none s h = cc h
non_empty-some (some t) s h = ground (arith, h)

split_once-parts : (c : ℕ) (s a b : Text) → split_once c s ≡ some (a, b) → s ≡ a ++ c ∷ b
unfolding split_once
split_once-parts c [] a b h = cc h
split_once-parts c (d ∷ s) a b h = elim (Bool-cases (nat_beq d c)) [
  | inl here ↦
      let (same_a, same_b) = pair_parts ([], s) (a, b) (rw here at h) in
      ap₂ (λ z w. z ∷ w) ((nat_beq_iff d c).0 here) same_b ∙ ap (λ z. z ++ c ∷ b) same_a
  | inr later ↦ elim (Option-cases (split_once c s)) [
    | inl missing ↦ cc (rw (later, missing) at h)
    | inr ((x, y), found) ↦
        let (same_a, same_b) =
          pair_parts (d ∷ x, y) (a, b) (ap (push_first d) (sym found) ∙ (rw later at h)) in
        ap (λ z. d ∷ z) (split_once-parts c s x y found) ∙ ap₂ (λ z w. z ++ c ∷ w) same_a same_b
  ]
]

cookie_parts-kept :
    (path : Text) (parts : Text × Text) (auth : Auth)
    → cookie_parts path parts ≡ ok auth
    → (parts.0 ≢ []) × (parts.1 ≢ []) × (auth ≡ some parts)
unfolding cookie_parts
cookie_parts-kept path (u, p) auth h = elim (Bool-cases (is_empty u)) [
  | inl no_user ↦ cc (rw no_user at h)
  | inr user ↦
      let h1 = rw user at h in
      elim (Bool-cases (is_empty p)) [
        | inl no_pass ↦ cc (rw no_pass at h1)
        | inr pass ↦
            (is_empty-false u user, is_empty-false p pass, sym (ok-injective (rw pass at h1)))
      ]
]

cookie_auth-FromCookie :
    (path content : Text) (auth : Auth)
    → cookie_auth path content ≡ ok auth
    → FromCookie content auth
unfolding cookie_auth cookie_parts
cookie_auth-FromCookie path content auth h =
    let (line, has_line, h1) = passed _ _ h in
    let (parts, has_parts, h2) = passed (cookie_parts path) _ h1 in
    let on_first = non_empty-some _ line (required-ok _ _ line has_line) in
    let is_line =
      split_once-parts 58 line parts.0 parts.1
        (required-ok _ (split_once 58 line) parts has_parts) in
    let (some_user, some_pass, is_auth) = cookie_parts-kept path parts auth h2 in
    record {
      line = line;
      user = parts.0;
      pass = parts.1;
      on_first = on_first;
      line_parts = is_line;
      some_user = some_user;
      some_pass = some_pass;
      is_auth = is_auth;
    }

resolve_auth-IsAuth :
    (read : Text → Text ⊎ Text) (user pass cookie : Option Text) (auth : Auth)
    → resolve_auth read user pass cookie ≡ ok auth
    → IsAuth read user pass cookie auth
unfolding resolve_auth file_auth
resolve_auth-IsAuth read (some u) (some p) cookie auth h = sym (ok-injective h)
resolve_auth-IsAuth read (some u) none cookie auth h = cc h
resolve_auth-IsAuth read none (some p) cookie auth h = cc h
resolve_auth-IsAuth read none none none auth h = sym (ok-injective h)
resolve_auth-IsAuth read none none (some path) auth h =
    let (content, was_read, made) = passed (cookie_auth path) _ h in
    (
      content,
      checked-ok (text "failed to read rpc cookie file " ++ path ++ text ": ") (read path) content
          was_read,
      cookie_auth-FromCookie path content auth made,
    )

-- What new checks and keeps of its arguments.
pub record IsConfigured (read scheme_of : Text → Text ⊎ Text) (connection : Text)
    (user pass cookie : Option Text) (requests_per_second : Option ℕ) (batch_chunk_size : ℕ)
    (client : HttpRpcClient) : Type 0 where
  pub scheme : Text
  pub has_scheme : scheme_of connection ≡ inr scheme
  pub over_http : (scheme ≡ text "http") ⊎ (scheme ≡ text "https")
  pub url : client.url ≡ connection
  pub auth : IsAuth read user pass cookie client.auth
  pub limiter : client.limiter ≡ requests_per_second
  pub some_limit : requests_per_second ≢ some 0
  pub chunk : client.batch_chunk_size ≡ batch_chunk_size
  pub some_chunk : 0 < batch_chunk_size

checked_limit-kept :
    (limit kept : Option ℕ) → checked_limit limit ≡ ok kept → (kept ≡ limit) × (limit ≢ some 0)
unfolding checked_limit
checked_limit-kept none kept h = (sym (ok-injective h), λ e. cc e)
checked_limit-kept (some n) kept h = elim (Bool-cases (nat_beq n 0)) [
  | inl zero_limit ↦ cc (rw zero_limit at h)
  | inr positive ↦
      (sym (ok-injective (rw positive at h)), λ e. absurd (ground (arith, e, positive)))
]

record Connected (scheme_of : Text → Text ⊎ Text) (connection url : Text) : Type 0 where
  scheme : Text
  has_scheme : scheme_of connection ≡ inr scheme
  over_http : (scheme ≡ text "http") ⊎ (scheme ≡ text "https")
  same : url ≡ connection

parse_connection-Connected :
    (scheme_of : Text → Text ⊎ Text) (connection url : Text) (r : Text ⊎ Text)
    → scheme_of connection ≡ r
    → parse_connection scheme_of connection ≡ ok url
    → Connected scheme_of connection url
unfolding parse_connection
parse_connection-Connected scheme_of connection url (inl message) is h = cc (rw is at h)
parse_connection-Connected scheme_of connection url (inr scheme) is h =
    elim (Bool-cases (scheme == text "http")) [
      | inl http ↦ record {
        scheme = scheme;
        has_scheme = is;
        over_http = inl ((==_iff scheme (text "http")).0 http);
        same = sym (ok-injective (rw (is, http) at h));
      }
      | inr other ↦ elim (Bool-cases (scheme == text "https")) [
        | inl https ↦ record {
          scheme = scheme;
          has_scheme = is;
          over_http = inr ((==_iff scheme (text "https")).0 https);
          same = sym (ok-injective (rw (is, other, https) at h));
        }
        | inr neither ↦ cc (rw (is, other, neither) at h)
      ]
    ]

module _ (read scheme_of : Text → Text ⊎ Text) (connection : Text) (user pass cookie : Option Text)
    (requests_per_second : Option ℕ) where
  -- A client that new returns is the one that its arguments ask for.
  pub new-IsConfigured :
      (batch_chunk_size : ℕ) (client : HttpRpcClient)
      → new read scheme_of connection user pass cookie requests_per_second batch_chunk_size
        ≡ ok client
      → IsConfigured read scheme_of connection user pass cookie requests_per_second batch_chunk_size
          client
  unfolding new configured
  new-IsConfigured batch_chunk_size client h = elim (Bool-cases (nat_beq batch_chunk_size 0)) [
    | inl no_chunk ↦ cc (rw no_chunk at h)
    | inr some_chunk ↦
        let (auth, has_auth, h1) = passed _ _ (rw some_chunk at h) in
        let (url, has_url, h2) = passed _ _ h1 in
        let (limiter, has_limiter, h3) = passed _ _ h2 in
        let (same_limit, some_limit) = checked_limit-kept requests_per_second limiter has_limiter in
        let is = ok-injective h3 in
        let reached = parse_connection-Connected scheme_of connection url _ refl has_url in
        subst
          (IsConfigured read scheme_of connection user pass cookie requests_per_second
            batch_chunk_size)
          is
          (record {
            scheme = reached.scheme;
            has_scheme = reached.has_scheme;
            over_http = reached.over_http;
            url = reached.same;
            auth = resolve_auth-IsAuth read user pass cookie auth has_auth;
            limiter = same_limit;
            some_limit = some_limit;
            chunk = refl;
            some_chunk = ground (arith, some_chunk);
          })
  ]
