-- ===== src/Namespace/Tests.antt =====
-- The chain of a uri with three segments.
use open_cortex.Base.{◌≡◌, refl, some, [], ◌∷◌, ◌++◌, map}
use open_cortex.Namespace.Defs.{named, path, parent_chain, uri_of}
use open_cortex.Namespace.Chain.{proper_prefixes, parent_chain_lem}
use open_cortex.Namespace.Simple.{posix, posix-IsPosix}

notes_path : path posix "opencortex://acme/ann/notes" ≡ some ("acme" ∷ "ann" ∷ "notes" ∷ [])
unfolding path named
notes_path = refl

three_uris :
    map uri_of (proper_prefixes ("acme" ∷ "ann" ∷ "notes" ∷ []))
    ≡ "opencortex://acme" ∷ "opencortex://acme/ann" ∷ []
unfolding proper_prefixes uri_of
three_uris = refl

parent_chain_lem_example :
    parent_chain posix "opencortex://acme/ann/notes"
    ≡ map uri_of (proper_prefixes ("acme" ∷ "ann" ∷ "notes" ∷ []))
      ++ "opencortex://acme/ann/notes" ∷ []
parent_chain_lem_example =
    parent_chain_lem posix posix-IsPosix "opencortex://acme/ann/notes"
      ("acme" ∷ "ann" ∷ "notes" ∷ []) notes_path
