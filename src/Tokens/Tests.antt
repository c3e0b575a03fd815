-- ===== src/Tokens/Tests.antt =====
-- The functions on small lists of records, and the theorems at them.
use open_cortex.Base.{◌≡◌, refl, String, false, none, some, Option, List, [], ◌⊎◌, arith, eq_iff}
use open_cortex.Tokens.Defs.{
  has_prefix, TokenRecord, Claims, same_identity, find_token_record, save_token_record,
  revoke_token, issued, registered, register_token_record,
}
use open_cortex.Tokens.Saving.{IsDistinct, save_rotates}
use open_cortex.Base.Lists.{All}
use open_cortex.Tokens.Revoking.{IsRevoked, revoke_outcome}
use open_cortex.Tokens.Records.{Reached, started, saving, registering, records-IsDistinct}

-- A token_digest that keeps the text, and a signer that gave one token.
abbrev token_digest : String → String
token_digest s = s

abbrev known_claims : Claims
known_claims = record { tid = some "acme"; uid = some "bob"; role = none }

abbrev decode : String → Option Claims
decode token = some known_claims

abbrev one_user : List TokenRecord
one_user = save_token_record token_digest "t1" "acme" "bob" "user" "2026" []

-- The second user has the same token on record.
abbrev shared : List TokenRecord
shared = save_token_record token_digest "t1" "acme" "eve" "user" "2026" one_user

found_run :
    find_token_record token_digest "t1"
      (save_token_record token_digest "t2" "acme" "bob" "user" "2027" shared)
    ≡ some (issued token_digest "t1" "acme" "eve" "user" "2026")
unfolding find_token_record save_token_record
found_run = refl

save_rotates_example :
    same_identity "acme" "bob" "user" (issued token_digest "t1" "acme" "eve" "user" "2026") ≡ false
save_rotates_example =
    save_rotates token_digest "t2" "acme" "bob" "user" "2027" "t1"
      (issued token_digest "t1" "acme" "eve" "user" "2026") shared
      (ground (arith, eq_iff "t1" "t2")) (ground (arith, eq_iff "t1" "t2")) found_run

abbrev again : List TokenRecord
again = save_token_record token_digest "t3" "acme" "bob" "user" "2028" shared

register_run :
    register_token_record token_digest decode "t3" "2028" shared
    ≡ registered "acme" "bob" "user" again
unfolding register_token_record
register_run = refl

again-Reached : Reached token_digest decode again
again-Reached = registering "t3" "2028" "acme" "bob" "user" register_run (
    saving "t1" "acme" "eve" "user" "2026" (ground (arith, eq_iff "user" ""))
      (saving "t1" "acme" "bob" "user" "2026" (ground (arith, eq_iff "user" "")) started))

records-IsDistinct_example : IsDistinct again
records-IsDistinct_example = records-IsDistinct token_digest decode again-Reached

revoke_outcome_example :
    ((revoke_token "t1" shared ≡ (none, shared)) × All (λ s. has_prefix "t1" s ≡ false) shared)
    ⊎ ((r : TokenRecord) × ((revoke_token "t1" shared).0 ≡ some r)
        × IsRevoked "t1" shared r (revoke_token "t1" shared).1)
revoke_outcome_example = revoke_outcome "t1" shared
