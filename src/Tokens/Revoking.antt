-- ===== src/Tokens/Revoking.antt =====
-- `revoke_token`: it removes the first record with the prefix, and nothing else.
use open_cortex.Base.{
  ◌≡◌, refl, ap, ◌⊎◌, String, true, false, none, some, List, [], ◌∷◌, ◌++◌, Bool-cases, inl, inr,
}
use open_cortex.Base.Lists.{All}
use open_cortex.Tokens.Defs.{TokenRecord, has_prefix, revoke_token}

-- The records without the prefix before it, the removed record, and the records after it.
pub record IsRevoked (wanted : String) (rs : List TokenRecord) (r : TokenRecord)
    (result : List TokenRecord) : Type 0 where
  pub before : List TokenRecord
  pub after : List TokenRecord
  pub split : rs ≡ before ++ r ∷ after
  pub left : result ≡ before ++ after
  pub first : All (λ s. has_prefix wanted s ≡ false) before
  pub matches : has_prefix wanted r ≡ true

-- `revoke_token` finds no record with the prefix and changes nothing, or it returns the first one
-- and keeps all others in their order.
pub revoke_outcome :
    (wanted : String) (rs : List TokenRecord)
    → ((revoke_token wanted rs ≡ (none, rs)) × All (λ s. has_prefix wanted s ≡ false) rs)
      ⊎ ((r : TokenRecord) × ((revoke_token wanted rs).0 ≡ some r)
          × IsRevoked wanted rs r (revoke_token wanted rs).1)
unfolding revoke_token
revoke_outcome wanted [] = inl (refl, tt)
revoke_outcome wanted (x ∷ rs) = elim (Bool-cases (has_prefix wanted x)) [
  | inl q ↦ inr (
    x,
    rw q refl,
    record { before = []; after = rs; split = refl; left = rw q refl; first = tt; matches = q },
  )
  | inr q ↦ elim (revoke_outcome wanted rs) [
    | inl (e, a) ↦ inl (rw (q, e) refl, (q, a))
    | inr (r, e, v) ↦ inr (
      r,
      rw q e,
      record {
        before = x ∷ v.before;
        after = v.after;
        split = ap (λ t. x ∷ t) v.split;
        left = rw q (ap (λ t. x ∷ t) v.left);
        first = (q, v.first);
        matches = v.matches;
      },
    )
  ]
]
