-- ===== src/Forget/Visibility.antt =====
-- What forgetting removes is visible to the identity.
use mathlib.Core.Path.{subst}
use text.Mathlib.Text.{starts_with}
use open_cortex.Base.{
  ℕ, ◌≡◌, ◌⊎◌, inl, inr, refl, String, true, false, not, some, List, [], ◌∷◌, if◌then◌else◌, ◌==◌,
  string_eq, eq_iff, arith, if_case, if_both, Bool-cases,
}
use open_cortex.Base.Lists.{All, contains}
use open_cortex.Base.Dict
use open_cortex.Base.Json.{Meta, Python, str}
use open_cortex.Worker.Failure.{Result, ok, err}
use open_cortex.Worker.Events.{IdentityProfile}
use open_cortex.Forget.Defs.{
  Condition, field_match, match_any, Filter, MemoryForgetRequest, MemoryForgetResult, Call, Stores,
  return, raise, continue, ◌>>=◌, forget_error, nothing_found, visibility_filter, semantic_uri,
  first_uri, any_record, is_visible, removed_or_missing, remove_fs, remove_target, forget_uri,
  forget,
}

-- The record has the field with the value, or with one of the values.
abbrev pub Holds : Meta → Condition → Type 0
Holds r (field_match key v) = Dict.get key r ≡ some (str v)
Holds r (match_any key vs) = (v : String) × (contains v vs ≡ true) × (Dict.get key r ≡ some (str v))

abbrev pub Some : Meta → List Condition → Type 0
Some r [] = ⊥
Some r (c ∷ cs) = Holds r c ⊎ Some r cs

-- What the vector store's documentation says of a record that a filter returns.
abbrev pub Meets : Filter → Meta → Type 0
Meets f r = All (Holds r) f.must × ((f.min_should ≡ 0) ⊎ Some r f.should)

-- The record is public or the user's own.
abbrev pub Shown : IdentityProfile → Meta → Type 0
Shown p r =
    (Dict.get "scope" r ≡ some (str "public"))
    ⊎ ((Dict.get "user_id" r ≡ some (str p.user_id))
        ⊎ (Dict.get "source_user_id" r ≡ some (str p.user_id)))

-- The identity is an administrator, or the record is in its tenant and project and is public or
-- the user's own.
abbrev pub IsVisible : String → IdentityProfile → String → Meta → Type 0
IsVisible role p uri r =
    (Dict.get "uri" r ≡ some (str uri))
    × ((role ≡ "admin")
        ⊎ ((Dict.get "tenant_id" r ≡ some (str p.tenant_id))
            × (Dict.get "project_id" r ≡ some (str p.project_id))
            × Shown p r))

Shown-cases :
    (p : IdentityProfile) (r : Meta)
    → Some r (
        field_match "scope" "public"
        ∷ field_match "user_id" p.user_id
        ∷ field_match "source_user_id" p.user_id
        ∷ [])
    → Shown p r
Shown-cases p r (inl h) = inl h
Shown-cases p r (inr (inl h)) = inr (inl h)
Shown-cases p r (inr (inr (inl h))) = inr (inr h)
Shown-cases p r (inr (inr (inr e))) = absurd e

target_conditions : String → List Condition
target_conditions uri =
    field_match "uri" uri
    ∷ field_match "retrieval_surface" "l0_object"
    ∷ match_any "context_type" ("memory" ∷ "resource" ∷ [])
    ∷ []

admin-filter :
    (role : String) (p : IdentityProfile) (uri : String)
    → (role == "admin") ≡ true
    → (uri == "") ≡ false
    → visibility_filter role p uri
      ≡ record { must = target_conditions uri; should = []; min_should = 0 }
unfolding visibility_filter target_conditions
admin-filter role p uri h u = rw (h, u) refl

user-filter :
    (role : String) (p : IdentityProfile) (uri : String)
    → (role == "admin") ≡ false
    → (uri == "") ≡ false
    → visibility_filter role p uri ≡ record {
      must =
          field_match "tenant_id" p.tenant_id
          ∷ field_match "project_id" p.project_id
          ∷ target_conditions uri;
      should =
          field_match "scope" "public"
          ∷ field_match "user_id" p.user_id
          ∷ field_match "source_user_id" p.user_id
          ∷ [];
      min_should = 1;
    }
unfolding visibility_filter target_conditions
user-filter role p uri h u = rw (h, u) refl

filter-IsVisible :
    (role : String) (p : IdentityProfile) (uri : String) (r : Meta)
    → (uri == "") ≡ false
    → Meets (visibility_filter role p uri) r
    → IsVisible role p uri r
unfolding target_conditions
filter-IsVisible role p uri r u m = elim (Bool-cases (role == "admin")) [
  | inl h ↦
      (let n = subst (λ f. Meets f r) (admin-filter role p uri h u) m in
        (n.0.0, inl ((eq_iff role "admin").0 h)))
  | inr h ↦
      (let n = subst (λ f. Meets f r) (user-filter role p uri h u) m in
        let shown = elim n.1 as (λ x. Shown p r) [
          | inl z ↦ absurd (omega (arith, z))
          | inr x ↦ Shown-cases p r x
        ] in
        (n.0.1.1.0, inr (n.0.0, n.0.1.0, shown)))
]

module _ {World : Type 0} (py : Python) (stores : Stores World) (Stored : Meta → Type 0)
    (P : World → Type 0) where
  -- The calls of the stores keep it, where the removal of a visible uri may rely on that.
  pub record Respects (role : String) (profile : IdentityProfile) : Type 0 where
    pub search : (query : String) (n : ℕ) (w : World) → P w → P (stores.search query n w).1
    pub filter : (f : Filter) (n : ℕ) (w : World) → P w → P (stores.filter f n w).1
    pub returns :
        (f : Filter) (n : ℕ) (w : World) (r : Meta) (rs : List Meta)
        → (stores.filter f n w).0 ≡ ok (r ∷ rs)
        → Stored r × Meets f r
    pub remove :
        (uri : String) (r : Meta) (w : World)
        → Stored r
        → IsVisible role profile uri r
        → P w
        → P (stores.remove_by_uri uri w).1 × P (stores.rm uri w).1

  continue-keeps :
      {A B : Type 0} (f : A → Call World B) (r : Result A) (w : World)
      → P w
      → ((a : A) → r ≡ ok a → P (f a w).1)
      → P (continue f r w).1
  continue-keeps f (ok a) w p k = k a refl
  continue-keeps f (err e) w p k = p

  module _ (role : String) (profile : IdentityProfile) (h : Respects role profile) where
    remove_target-keeps :
        (uri matched_by : String) (r : Meta) (w : World)
        → Stored r
        → IsVisible role profile uri r
        → P w
        → P (remove_target py stores uri matched_by true w).1
    unfolding remove_target remove_fs
    remove_target-keeps uri matched_by r w t v p =
        let w₁ = (stores.remove_by_uri uri w).1 in
        let p₁ = (h.remove uri r w t v p).0 in
        let p₂ = (h.remove uri r w₁ t v p₁).1 in
        continue-keeps _ (stores.remove_by_uri uri w).0 w₁ p₁ (λ n e.
          continue-keeps _ (removed_or_missing py stores (stores.rm uri w₁).0) (stores.rm uri w₁).1
            p₂ (λ b e. p₂))

    -- What happens to a target, from what the filter returned for it.
    checked-keeps :
        (uri matched_by : String) (found : Result (List Meta)) (w : World)
        → P w
        → ((r : Meta) (rs : List Meta)
            → found ≡ ok (r ∷ rs)
            → Stored r × IsVisible role profile uri r)
        → let visible = continue (λ rs. return (any_record py stores rs)) found w in
          P (continue (remove_target py stores uri matched_by) visible.0 visible.1).1
    unfolding remove_target
    checked-keeps uri matched_by (err e) w p k = p
    checked-keeps uri matched_by (ok []) w p k = p
    checked-keeps uri matched_by (ok (r ∷ rs)) w p k =
        remove_target-keeps uri matched_by r w (k r rs refl).0 (k r rs refl).1 p

    forget_uri-keeps :
        (uri matched_by : String) (w : World)
        → P w
        → P (forget_uri py stores role profile uri matched_by w).1
    unfolding forget_uri is_visible
    forget_uri-keeps uri matched_by w p =
        let target = py.strip uri in
        let Kept : Call World MemoryForgetResult → Type 0 = λ m. P (m w).1 in
        let found = stores.filter (visibility_filter role profile target) 1 w in
        let removal =
          is_visible py stores role profile target >>= remove_target py stores target matched_by in
        let wrong_scheme = raise (forget_error "forget uri must start with opencortex://") in
        let no_uri = raise (forget_error "forget uri is required") in
        if_case Kept (target == "") no_uri
          (if not (starts_with target "opencortex://") then wrong_scheme else removal) (λ e. p)
          (λ e. if_both Kept (not (starts_with target "opencortex://")) wrong_scheme removal p (
            checked-keeps target matched_by found.0 found.1 (h.filter _ 1 w p) (λ r rs f.
              let back = h.returns (visibility_filter role profile target) 1 w r rs f in
              (back.0, filter-IsVisible role profile target r e back.1))))

    -- Whatever the stores keep under the removal of uris that are visible to the identity, a request
    -- to forget keeps: nothing else is removed, also where a call fails.
    pub forget-keeps :
        (request : MemoryForgetRequest) (w : World)
        → P w
        → P (forget py stores role profile request w).1
    unfolding forget semantic_uri
    forget-keeps request w p =
        let found = stores.search request.query 1 w in
        let Kept : Call World MemoryForgetResult → Type 0 = λ m. P (m w).1 in
        let chosen : String → Call World MemoryForgetResult = λ uri.
          if uri == ""
          then return (nothing_found "" "query")
          else forget_uri py stores role profile uri "query" in
        if_both Kept (py.strip request.query == "")
          (forget_uri py stores role profile request.uri "uri")
          (semantic_uri py stores request.query >>= chosen) (forget_uri-keeps request.uri "uri" w p)
          (let kept =
              continue-keeps (λ us. return (first_uri py stores us)) found.0 found.1
                (h.search request.query 1 w p) (λ us e. h.search request.query 1 w p) in
            let w₁ = (semantic_uri py stores request.query w).1 in
            continue-keeps chosen (semantic_uri py stores request.query w).0 w₁ kept (λ uri e.
              if_both (λ m. P (m w₁).1) (uri == "") (return (nothing_found "" "query"))
                (forget_uri py stores role profile uri "query") kept
                (forget_uri-keeps uri "query" w₁ kept)))
