-- ===== src/Common/Tests.antt =====
-- The helpers on small inputs.
use open_cortex.Base.{◌≡◌, ◌⊎◌, refl, String, not, ◌&&◌, ◌==◌, string_eq, none, some, List, [], ◌∷◌}
use open_cortex.Base.Lists.{contains}
use open_cortex.Base.Sets.{NoRepeats}
use open_cortex.Base.Json.{Json, null, str, texts}
use open_cortex.Base.Plain.{plain}
use open_cortex.Common.Defs.{merge_unique_strings, category_after, category_parents}
use open_cortex.Common.Merging.{all_values, value_in, merge_unique_strings_lem}

abbrev groups : List Json
groups = texts ("a" ∷ "" ∷ "b" ∷ "a" ∷ []) ∷ null ∷ str "b" ∷ str "c" ∷ []

merge_run : merge_unique_strings plain groups ≡ some ("a" ∷ "b" ∷ "c" ∷ [])
unfolding merge_unique_strings
merge_run = refl

category_run :
    category_after
      ("opencortex:" ∷ "" ∷ "t" ∷ "u" ∷ "memories" ∷ "p" ∷ "events" ∷ [])
      category_parents
    ≡ "p"
unfolding category_after
category_run = refl

abbrev letter : String
letter = "c"

abbrev no_text : String
no_text = ""

merge_unique_strings_lem_example :
    ((all_values groups ≡ none) × (merge_unique_strings plain groups ≡ none))
    ⊎ ((vs : List Json) × (merged : List String) × (all_values groups ≡ some vs)
        × (merge_unique_strings plain groups ≡ some merged)
        × NoRepeats merged
        × (contains letter merged ≡ (not (letter == no_text) && value_in plain letter vs)))
merge_unique_strings_lem_example = merge_unique_strings_lem plain letter groups
