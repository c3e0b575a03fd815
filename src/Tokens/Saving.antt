-- ===== src/Tokens/Saving.antt =====
-- `save_token_record` and `find_token_record`: one record for an identity, and the rotation of tokens.
use open_cortex.Base.{
  ◌≡◌, ◌≢◌, String, Bool, true, false, not, none, some, List, [], ◌∷◌, ◌++◌, string_eq, eq_iff,
  arith, Bool-cases, Option-cases, inl, inr,
}
use open_cortex.Base.Lists.{filter, All, All-append}
use open_cortex.Tokens.Defs.{
  TokenRecord, role_of, same_identity, is_token, find_token_record, issued, save_token_record,
}

-- A record of the same identity as another.
unfoldable pub same_as : TokenRecord → TokenRecord → Bool
same_as r s = elim r.tenant_id [
  | none ↦ false
  | some t ↦ elim r.user_id [ none ↦ false | some u ↦ same_identity t u (role_of r.role) s ]
]

-- No record has the identity of an earlier one.
unfoldable pub IsDistinct : List TokenRecord → Type 0
IsDistinct [] = Unit
IsDistinct (r ∷ rs) = All (λ s. same_as r s ≡ false) rs × IsDistinct rs

pub All-filter :
    {A : Type 0} (P : A → Type 0) (p : A → Bool) (xs : List A) → All P xs → All P (filter p xs)
All-filter P p [] h = tt
All-filter P p (x ∷ xs) h = elim (Bool-cases (p x)) [
  | inl q ↦ rw q (h.0, All-filter P p xs h.1)
  | inr q ↦ rw q (All-filter P p xs h.1)
]

filter-holds : {A : Type 0} (p : A → Bool) (xs : List A) → All (λ x. p x ≡ true) (filter p xs)
filter-holds p [] = tt
filter-holds p (x ∷ xs) = elim (Bool-cases (p x)) [
  | inl q ↦ rw q (q, filter-holds p xs)
  | inr q ↦ rw q (filter-holds p xs)
]

filter-IsDistinct :
    (p : TokenRecord → Bool) (rs : List TokenRecord) → IsDistinct rs → IsDistinct (filter p rs)
unfolding IsDistinct
filter-IsDistinct p [] d = tt
filter-IsDistinct p (r ∷ rs) d = elim (Bool-cases (p r)) [
  | inl q ↦ rw q (All-filter (λ s. same_as r s ≡ false) p rs d.0, filter-IsDistinct p rs d.1)
  | inr q ↦ rw q (filter-IsDistinct p rs d.1)
]

append-IsDistinct :
    (s : TokenRecord) (rs : List TokenRecord)
    → All (λ r. same_as r s ≡ false) rs
    → IsDistinct rs
    → IsDistinct (rs ++ s ∷ [])
unfolding IsDistinct
append-IsDistinct s [] h d = (tt, tt)
append-IsDistinct s (r ∷ rs) h d = (
  All-append (λ t. same_as r t ≡ false) rs (s ∷ []) d.0 (h.0, tt),
  append-IsDistinct s rs h.1 d.1,
)

pub All-map :
    {A : Type 0} (P Q : A → Type 0) (f : (a : A) → P a → Q a) (xs : List A) → All P xs → All Q xs
All-map P Q f [] h = tt
All-map P Q f (x ∷ xs) h = (f x h.0, All-map P Q f xs h.1)

module _ (hash : String → String) (token tenant user role now : String) where
  kept_apart :
      (r : TokenRecord)
      → role ≢ ""
      → not (same_identity tenant user role r) ≡ true
      → same_as r (issued hash token tenant user role now) ≡ false
  unfolding same_as same_identity issued
  kept_apart r n h = elim (Option-cases r.tenant_id) [
    | inl t ↦ ground (arith, t)
    | inr (t, p) ↦ elim (Option-cases r.user_id) [
      | inl u ↦ ground (arith, p, u)
      | inr (u, q) ↦ ground (
        arith,
        p,
        q,
        eq_iff t tenant,
        eq_iff tenant t,
        eq_iff u user,
        eq_iff user u,
        eq_iff role "",
        eq_iff (role_of r.role) role,
        eq_iff role (role_of r.role),
      )
    ]
  ]

  -- A saved record replaces the one of its identity, so that no identity has two records.
  pub save_token_record-IsDistinct :
      (rs : List TokenRecord)
      → role ≢ ""
      → IsDistinct rs
      → IsDistinct (save_token_record hash token tenant user role now rs)
  unfolding save_token_record
  save_token_record-IsDistinct rs n d =
      let p : TokenRecord → Bool = λ r. not (same_identity tenant user role r) in
      append-IsDistinct (issued hash token tenant user role now) (filter p rs)
        (All-map (λ r. p r ≡ true) (λ r. same_as r (issued hash token tenant user role now) ≡ false)
          (λ r h. kept_apart r n h) (filter p rs) (filter-holds p rs))
        (filter-IsDistinct p rs d)

  -- Found records satisfy what all records of the list do.
  find_append :
      (p : TokenRecord → Bool) (old : String) (s r : TokenRecord) (rs : List TokenRecord)
      → All (λ x. p x ≡ true) rs
      → is_token hash old s ≡ false
      → find_token_record hash old (rs ++ s ∷ []) ≡ some r
      → p r ≡ true
  unfolding find_token_record
  find_append p old s r [] a h f = ground (arith, h)
  find_append p old s r (x ∷ rs) a h f = elim (Bool-cases (is_token hash old x)) [
    | inl q ↦ ground (arith, q, f, a.0)
    | inr q ↦ find_append p old s r rs a.1 h (ground (arith, q))
  ]

  -- After a rotation the old token is found for another identity only.
  pub save_rotates :
      (old : String) (r : TokenRecord) (rs : List TokenRecord)
      → old ≢ token
      → hash old ≢ hash token
      → find_token_record hash old (save_token_record hash token tenant user role now rs) ≡ some r
      → same_identity tenant user role r ≡ false
  unfolding save_token_record is_token issued
  save_rotates old r rs n m f =
      let p : TokenRecord → Bool = λ x. not (same_identity tenant user role x) in
      ground (
        arith,
        find_append p old (issued hash token tenant user role now) r (filter p rs)
            (filter-holds p rs)
            (ground (arith, eq_iff token old, eq_iff (hash token) (hash old), n, m)) f,
      )
