-- ===== src/Forget/Defs.antt =====
-- `MemoryForgetter` over the stores that it calls.
use text.Mathlib.Text.{starts_with}
use open_cortex.Base.{
  ℕ, String, Bool, true, false, not, ◌||◌, List, [], ◌∷◌, ◌++◌, if◌then◌else◌, ◌==◌, string_eq,
  nat_eq, ltb,
}
use open_cortex.Base.Json.{Meta, Python}
use open_cortex.Worker.Failure.{PyError, value, Result, ok, err}
use open_cortex.Worker.Events.{IdentityProfile}

-- Conditions on the fields of a record, and how they are combined.
pub data Condition : Type 0 where
  field_match : String → String → Condition
  match_any : String → List String → Condition

pub record Filter : Type 0 where
  pub must : List Condition
  pub should : List Condition
  pub min_should : ℕ

pub record MemoryForgetRequest : Type 0 where
  pub query : String
  pub uri : String

pub record MemoryForgetResult : Type 0 where
  pub forgotten : ℕ
  pub uri : String
  pub matched_by : String
  pub qdrant_removed : Bool
  pub fs_removed : Bool

-- A call: its result, and the world after it.
abbrev pub Call : Type 0 → Type 0 → Type 0
Call World A = World → Result A × World

-- The retriever, which gives the uris that it finds, the vector store, which gives the number of the
-- records that it removed, and the file store.
pub record Stores (World : Type 0) : Type 0 where
  pub search : String → ℕ → Call World (List String)
  pub filter : Filter → ℕ → Call World (List Meta)
  pub remove_by_uri : String → Call World ℕ
  pub rm : String → Call World (Unit {0})

abbrev pub return : {W A : Type 0} → A → Call W A
return a w = (ok a, w)

abbrev pub raise : {W A : Type 0} → PyError → Call W A
raise e w = (err e, w)

abbrev pub continue : {W A B : Type 0} → (A → Call W B) → Result A → W → Result B × W
continue f (ok a) w = f a w
continue f (err e) w = (err e, w)

infixl 5 ◌>>=◌
abbrev pub ◌>>=◌ : {W A B : Type 0} → Call W A → (A → Call W B) → Call W B
◌>>=◌ m f w = let r = m w in continue f r.0 r.1

abbrev pub forget_error : String → PyError
forget_error text = record { class = value; class_name = "ValueError"; text = text }

abbrev pub nothing_found : String → String → MemoryForgetResult
nothing_found uri matched_by = record {
  forgotten = 0;
  uri = uri;
  matched_by = matched_by;
  qdrant_removed = false;
  fs_removed = false;
}

-- The filter for the primary records of a uri that the identity may see.
unfoldable pub visibility_filter : String → IdentityProfile → String → Filter
visibility_filter role profile uri =
    let own : List Condition =
      if role == "admin"
      then []
      else field_match "tenant_id" profile.tenant_id
        ∷ field_match "project_id" profile.project_id
        ∷ [] in
    let target : List Condition =
      if uri == ""
      then []
      else field_match "uri" uri
        ∷ field_match "retrieval_surface" "l0_object"
        ∷ match_any "context_type" ("memory" ∷ "resource" ∷ [])
        ∷ [] in
    let shown : List Condition =
      field_match "scope" "public"
      ∷ field_match "user_id" profile.user_id
      ∷ field_match "source_user_id" profile.user_id
      ∷ [] in
    if role == "admin" || uri == ""
    then record { must = own ++ target; should = []; min_should = 0 }
    else record { must = own ++ target; should = shown; min_should = 1 }

module _ {World : Type 0} (py : Python) (stores : Stores World) where
  -- The first uri of a list, or the empty one.
  abbrev pub first_uri : List String → String
  first_uri [] = ""
  first_uri (u ∷ us) = u

  unfoldable pub semantic_uri : String → Call World String
  semantic_uri query = do found ← stores.search query 1; return (first_uri found)

  abbrev pub any_record : List Meta → Bool
  any_record [] = false
  any_record (r ∷ rs) = true

  unfoldable pub is_visible : String → IdentityProfile → String → Call World Bool
  unfolding visibility_filter
  is_visible role profile uri = do
    records ← stores.filter (visibility_filter role profile uri) 1
    return (any_record records)

  -- False where the files do not exist.
  abbrev pub removed_or_missing : Result (Unit {0}) → Result Bool
  removed_or_missing (ok done) = ok true
  removed_or_missing (err e) = if e.class_name == "FileNotFoundError" then ok false else err e

  unfoldable pub remove_fs : String → Call World Bool
  remove_fs uri w = let r = stores.rm uri w in (removed_or_missing r.0, r.1)

  -- What is done with a target that is visible, or is not.
  unfoldable pub remove_target : String → String → Bool → Call World MemoryForgetResult
  unfolding remove_fs
  remove_target target_uri matched_by false = return (nothing_found target_uri matched_by)
  remove_target target_uri matched_by true = do
    removed ← stores.remove_by_uri target_uri
    fs_removed ← remove_fs target_uri
    return (record {
      forgotten = if ltb 0 removed || fs_removed then 1 else 0;
      uri = target_uri;
      matched_by = matched_by;
      qdrant_removed = ltb 0 removed;
      fs_removed = fs_removed;
    })

  unfoldable pub forget_uri :
      String → IdentityProfile → String → String → Call World MemoryForgetResult
  unfolding is_visible remove_target
  forget_uri role profile uri matched_by =
      let target_uri = py.strip uri in
      let removal = is_visible role profile target_uri >>= remove_target target_uri matched_by in
      if target_uri == ""
      then raise (forget_error "forget uri is required")
      else if not (starts_with target_uri "opencortex://")
      then raise (forget_error "forget uri must start with opencortex://")
      else removal

  unfoldable pub forget :
      String → IdentityProfile → MemoryForgetRequest → Call World MemoryForgetResult
  unfolding semantic_uri forget_uri
  forget role profile request =
      let by_query : Call World MemoryForgetResult = (do
        uri ← semantic_uri request.query
        if uri == ""
            then return (nothing_found "" "query")
            else forget_uri role profile uri "query") in
      if py.strip request.query == "" then forget_uri role profile request.uri "uri" else by_query
