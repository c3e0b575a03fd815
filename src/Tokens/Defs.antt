-- ===== src/Tokens/Defs.antt =====
-- The data and the functions of src/opencortex/auth/token.py.
use Prim.Native.String.{len}
use text.Mathlib.Text.{starts_with, get?}
use open_cortex.Base.{
  ◌-◌, String, Bool, false, not, ◌&&◌, ◌||◌, Option, none, some, List, [], ◌∷◌, ◌++◌, if◌then◌else◌,
  ◌==◌, string_eq,
}
use open_cortex.Base.Lists.{filter}

pub record TokenRecord : Type 0 where
  pub token_hash : Option String
  pub token_prefix : Option String
  pub token : Option String
  pub tenant_id : Option String
  pub user_id : Option String
  pub role : Option String
  pub created_at : Option String

pub record Claims : Type 0 where
  pub tid : Option String
  pub uid : Option String
  pub role : Option String

pub record PublicRecord : Type 0 where
  pub tenant_id : String
  pub user_id : String
  pub role : String
  pub created_at : String
  pub token_prefix : String
  pub token : String

-- `str(value or "")`
abbrev pub text_of : Option String → String
text_of none = ""
text_of (some s) = s

-- `str(value or "user")`
abbrev pub role_of : Option String → String
role_of none = "user"
role_of (some s) = if s == "" then "user" else s

-- `value == s` where the value may be missing
abbrev pub holds : Option String → String → Bool
holds none s = false
holds (some v) s = v == s

-- `s.removesuffix("...")`
unfoldable pub without_dots : String → String
without_dots s =
    if holds (get? s (len s - 3) (len s)) "..." then text_of (get? s 0 (len s - 3)) else s

-- `hashed[:16]` of the ASCII digest
unfoldable pub first_16 : String → String
first_16 s = elim (get? s 0 16) [ none ↦ s | some t ↦ t ]

unfoldable pub same_identity : String → String → String → TokenRecord → Bool
same_identity tenant user role r =
    holds r.tenant_id tenant && holds r.user_id user && role_of r.role == role

-- The guard of `revoke_token`.
unfoldable pub has_prefix : String → TokenRecord → Bool
unfolding without_dots
has_prefix wanted r =
    without_dots (text_of r.token_prefix) == wanted
    || starts_with (text_of r.token_hash) wanted
    || starts_with (text_of r.token) wanted

unfoldable pub revoke_token : String → List TokenRecord → Option TokenRecord × List TokenRecord
unfolding has_prefix
revoke_token wanted [] = (none, [])
revoke_token wanted (r ∷ rs) =
    let rest = revoke_token wanted rs in
    if has_prefix wanted r then (some r, rs) else (rest.0, r ∷ rest.1)

-- What a registration does: `decode_token` raises on a bad token (`invalid_token`), and the
-- ValueError is `missing_claims`.
pub data Registered : Type 0 where
  registered : String → String → String → List TokenRecord → Registered
  invalid_token : Registered
  missing_claims : Registered

module _ (hash : String → String) where
  unfoldable pub public_token_record : TokenRecord → PublicRecord
  unfolding first_16
  public_token_record r = record {
    tenant_id = text_of r.tenant_id;
    user_id = text_of r.user_id;
    role = role_of r.role;
    created_at = text_of r.created_at;
    token_prefix =
        if text_of r.token_prefix == "" && not (text_of r.token == "")
        then first_16 (hash (text_of r.token))
        else text_of r.token_prefix;
    token = text_of r.token;
  }

  unfoldable pub is_token : String → TokenRecord → Bool
  is_token token r = holds r.token_hash (hash token) || holds r.token token

  unfoldable pub find_token_record : String → List TokenRecord → Option TokenRecord
  unfolding is_token
  find_token_record token [] = none
  find_token_record token (r ∷ rs) = if is_token token r then some r else find_token_record token rs

  unfoldable pub issued : String → String → String → String → String → TokenRecord
  unfolding first_16
  issued token tenant user role now = record {
    token_hash = some (hash token);
    token_prefix = some (first_16 (hash token));
    token = some token;
    tenant_id = some tenant;
    user_id = some user;
    role = some role;
    created_at = some now;
  }

  unfoldable pub save_token_record :
      String → String → String → String → String → List TokenRecord → List TokenRecord
  unfolding same_identity issued
  save_token_record token tenant user role now rs =
      filter (λ r. not (same_identity tenant user role r)) rs
      ++ issued token tenant user role now ∷ []

  unfoldable pub register_token_record :
      (String → Option Claims) → String → String → List TokenRecord → Registered
  unfolding save_token_record
  register_token_record decode token now rs = elim (decode token) [
    | none ↦ invalid_token
    | some c ↦
        if text_of c.tid == "" || text_of c.uid == ""
        then missing_claims
        else registered (text_of c.tid) (text_of c.uid) (role_of c.role)
            (save_token_record token (text_of c.tid) (text_of c.uid) (role_of c.role) now rs)
  ]
