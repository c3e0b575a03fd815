-- ===== src/Namespace/Defs.antt =====
-- The functions of src/opencortex/storage/namespace.py and src/opencortex/utils/uri.py.
use Prim.Native.String.{◌++◌ as ◌<>◌, len, slice}
use text.Mathlib.Text.{starts_with}
use open_cortex.Base.{
  ℕ, ◌+◌, zero, suc, String, Bool, true, not, ◌||◌, Option, none, some, List, [], ◌∷◌,
  if◌then◌else◌, ◌==◌, string_eq, leb,
}
use open_cortex.Base.Lists.{filter, any, length}
use open_cortex.Base.Json.{Python, num, join}
use open_cortex.Common.{index_of, get_elem?}
use open_cortex.Worker.Events.{IdentityProfile}

abbrev pub prefix : String
prefix = "opencortex://"

abbrev or_else_text : String → String → String
or_else_text a b = if a == "" then b else a

-- All but the last.
unfoldable pub parent_parts : List String → List String
parent_parts [] = []
parent_parts (x ∷ []) = []
parent_parts (x ∷ y ∷ xs) = x ∷ parent_parts (y ∷ xs)

-- The parts that name something.
unfoldable pub named : List String → List String
named = filter (λ p. not (p == "" || p == "."))

-- No path without parts, and none with "..".
unfoldable pub checked : List String → Option (List String)
checked [] = none
checked (p ∷ ps) = if any (λ q. q == "..") (p ∷ ps) then none else some (p ∷ ps)

-- The uri of a path.
unfoldable pub uri_of : List String → String
unfolding join
uri_of parts = prefix <> join "/" parts

module _ (py : Python) where
  -- `CortexURI.is_private`
  unfoldable pub is_private : String → Bool
  unfolding index_of get_elem?
  is_private uri =
      let parts = py.split uri "/" in
      elim (index_of "opencortex:" 0 parts) [
        | none ↦ true
        | some i ↦ elim (get_elem? parts (i + 2 + 1)) [ none ↦ true | some p ↦ not (p == "shared") ]
      ]

  -- The text is ASCII after the substitution, so that its first 80 bytes are its first 80 letters.
  unfoldable pub slug : String → String
  slug value = slice (py.strip_underscores (py.re_slug (py.lower (py.strip value)))) 0 80

  unfoldable pub base : IdentityProfile → String → String → String
  unfolding slug join
  base profile bucket category =
      prefix
      <> join "/" (
          or_else_text (slug profile.tenant_id) "default"
          ∷ or_else_text (slug profile.user_id) "default"
          ∷ bucket
          ∷ or_else_text (slug profile.project_id) "public"
          ∷ or_else_text (slug category) "semantic"
          ∷ [])

  unfoldable pub resolve : IdentityProfile → Bool → String → String → String → String × String
  unfolding slug base
  resolve profile is_resource category abstract uuid =
      let bucket = if is_resource then "resources" else "memories" in
      let parent = base profile bucket category in
      (parent <> ("/" <> or_else_text (slug abstract) uuid), parent)

  unfoldable pub session_events_parent : String → IdentityProfile → String
  unfolding base slug
  session_events_parent session profile = base profile "memories" "events" <> ("/" <> slug session)

  unfoldable pub session_immediate_uri : IdentityProfile → String → String
  unfolding session_events_parent
  session_immediate_uri profile uuid =
      session_events_parent profile.session_id profile <> ("/immediate/" <> uuid)

  unfoldable pub session_merged_uri : String → ℕ → ℕ → IdentityProfile → String
  unfolding session_events_parent
  session_merged_uri session first last profile =
      session_events_parent session profile
      <> ("/merged/" <> (py.show (num first) <> ("-" <> py.show (num last))))

  unfoldable pub session_final_uri : String → IdentityProfile → String
  unfolding session_events_parent
  session_final_uri session profile = session_events_parent session profile <> "/final"

  -- The path of a uri, `none` where the source returns None.
  unfoldable pub path : String → Option (List String)
  unfolding named checked
  path uri =
      if starts_with uri prefix
      then checked (named (py.path_parts (py.strip_slashes (slice uri (len prefix) (len uri)))))
      else none

  unfoldable pub parent : String → String
  unfolding path uri_of parent_parts
  parent uri = elim (path uri) [
    | none ↦ ""
    | some parts ↦ if leb (length parts) 1 then "" else uri_of (parent_parts parts)
  ]

  -- The loop, which prepends: the list is reversed at the end in the source.
  unfoldable pub chain_loop : ℕ → String → List String → List String
  unfolding parent
  chain_loop zero current chain = chain
  chain_loop (suc fuel) current chain =
      let rest = chain_loop fuel (parent current) (current ∷ chain) in
      if current == "" then chain else rest

  unfoldable pub segments : String → List String
  unfolding path
  segments uri = elim (path uri) [ none ↦ [] | some parts ↦ parts ]

  -- One round more than there are segments, and one for the empty uri at the end.
  unfoldable pub parent_chain : String → List String
  unfolding chain_loop segments
  parent_chain uri = chain_loop (suc (suc (length (segments uri)))) uri []
