-- ===== src/Tokens/Records.antt =====
-- The records of the file over any saves, registrations and revocations.
use mathlib.Core.Path.{subst}
use open_cortex.Base.{
  ◌≡◌, ◌≢◌, ap, sym, String, false, ◌||◌, Option, none, some, List, [], ◌∷◌, ◌==◌, ◌⊎◌, string_eq,
  eq_iff, arith, Bool-cases, Option-cases, inl, inr,
}
use open_cortex.Base.Lists.{All}
use open_cortex.Tokens.Defs.{
  TokenRecord, Claims, text_of, role_of, save_token_record, revoke_token, has_prefix, Registered,
  registered, invalid_token, missing_claims, register_token_record,
}
use open_cortex.Tokens.Saving.{same_as, IsDistinct, save_token_record-IsDistinct}

revoke_all :
    (P : TokenRecord → Type 0) (wanted : String) (rs : List TokenRecord)
    → All P rs
    → All P (revoke_token wanted rs).1
unfolding revoke_token
revoke_all P wanted [] h = tt
revoke_all P wanted (r ∷ rs) h = elim (Bool-cases (has_prefix wanted r)) [
  | inl q ↦ rw q h.1
  | inr q ↦ rw q (h.0, revoke_all P wanted rs h.1)
]

pub revoke_token-IsDistinct :
    (wanted : String) (rs : List TokenRecord)
    → IsDistinct rs
    → IsDistinct (revoke_token wanted rs).1
unfolding revoke_token IsDistinct
revoke_token-IsDistinct wanted [] d = tt
revoke_token-IsDistinct wanted (r ∷ rs) d = elim (Bool-cases (has_prefix wanted r)) [
  | inl q ↦ rw q d.1
  | inr q ↦
      rw q
        (revoke_all (λ s. same_as r s ≡ false) wanted rs d.0, revoke_token-IsDistinct wanted rs d.1)
]

role_of-nonempty : (o : Option String) → role_of o ≢ ""
role_of-nonempty none = ground (arith, eq_iff "user" "")
role_of-nonempty (some s) = ground (arith, eq_iff s "", eq_iff "user" "")

-- The records that a registration writes.
abbrev written : Registered → List TokenRecord
written (registered tenant user role after) = after
written invalid_token = []
written missing_claims = []

-- The lists of records that calls lead to, from the empty file.
pub data Reached (hash : String → String) (decode : String → Option Claims)
    : List TokenRecord → Type 0 where
  started : Reached hash decode []
  saving :
      {rs : List TokenRecord} (token tenant user role now : String)
      → role ≢ ""
      → Reached hash decode rs
      → Reached hash decode (save_token_record hash token tenant user role now rs)
  registering :
      {rs after : List TokenRecord} (token now tenant user role : String)
      → register_token_record hash decode token now rs ≡ registered tenant user role after
      → Reached hash decode rs
      → Reached hash decode after
  revoking :
      {rs : List TokenRecord} (wanted : String)
      → Reached hash decode rs
      → Reached hash decode (revoke_token wanted rs).1

module _ (hash : String → String) (decode : String → Option Claims) where
  -- A registration writes nothing, or the record of a decoded token.
  register_writes :
      (token now : String) (rs : List TokenRecord)
      → (written (register_token_record hash decode token now rs) ≡ [])
        ⊎ ((c : Claims) × (written (register_token_record hash decode token now rs)
              ≡ save_token_record hash token
                  (text_of c.tid)
                  (text_of c.uid)
                  (role_of c.role)
                  now
                  rs))
  unfolding register_token_record
  register_writes token now rs = elim (Option-cases (decode token)) [
    | inl h ↦ inl (ground (arith, h))
    | inr (c, h) ↦ elim (Bool-cases (text_of c.tid == "" || text_of c.uid == "")) [
      | inl q ↦ inl (ground (arith, h, q))
      | inr q ↦ inr (c, ground (arith, h, q))
    ]
  ]

  register-IsDistinct :
      (token now : String) (rs : List TokenRecord)
      → IsDistinct rs
      → IsDistinct (written (register_token_record hash decode token now rs))
  unfolding IsDistinct
  register-IsDistinct token now rs d = elim (register_writes token now rs) [
    | inl h ↦ subst IsDistinct (sym h) tt
    | inr (c, h) ↦ subst IsDistinct (sym h) (
        save_token_record-IsDistinct hash token (text_of c.tid) (text_of c.uid) (role_of c.role) now
          rs (role_of-nonempty c.role) d)
  ]

  -- No identity ever has two records, when no record is saved with an empty role.
  pub records-IsDistinct : {rs : List TokenRecord} → Reached hash decode rs → IsDistinct rs
  records-IsDistinct started = unfold IsDistinct in tt
  records-IsDistinct (saving {rs} token tenant user role now n r) =
      save_token_record-IsDistinct hash token tenant user role now rs n (records-IsDistinct r)
  records-IsDistinct (registering {rs} {after} token now tenant user role h r) =
      subst IsDistinct (ap written h) (register-IsDistinct token now rs (records-IsDistinct r))
  records-IsDistinct (revoking {rs} wanted r) =
      revoke_token-IsDistinct wanted rs (records-IsDistinct r)
