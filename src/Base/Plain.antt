-- ===== src/Base/Plain.antt =====
-- A simple library of text functions, at which the theorems on texts are applied.
use open_cortex.Base.Tests.{if◌then◌else◌}
use open_cortex.Base.Equality.{◌==◌, string_eq}
use open_cortex.Base.Json.{Json, null, num, str, Python, IsPython}
use Prim.Native.String.{String}
use mathlib.Core.Option.{none, some}
use mathlib.Core.List.{[], ◌∷◌}
use mathlib.Core.Path.{refl}

abbrev show : Json → String
show (str s) = s
show _ = "v"

-- Texts that are trimmed already, and paths of one part.
abbrev pub plain : Python
plain = record {
  show = show;
  strip = λ s. s;
  lower = λ s. s;
  split = λ s t. s ∷ [];
  splitlines = λ s. s ∷ [];
  chars = λ s. [];
  re_slug = λ s. s;
  strip_underscores = λ s. s;
  strip_slashes = λ s. s;
  optional_int = λ v. elim v [ null ↦ some null | num n ↦ some (num n) | _ ↦ none ];
  path_parts = λ s. if s == "" then [] else s ∷ [];
}

pub plain-IsPython : IsPython plain
plain-IsPython = record { show-str = λ s. refl }
