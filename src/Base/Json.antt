-- ===== src/Base/Json.antt =====
-- The values that a Python dict of JSON data holds, and Python's built-in functions on them.
use Prim.Native.String.{String, ◌++◌ as ◌<>◌}
use open_cortex.Base.Tests.{if◌then◌else◌}
use open_cortex.Base.Equality.{◌==◌, nat_eq, string_eq}
use open_cortex.Base.Dict
use open_cortex.Base.Dict.{Dict}
use Prim.Native.Nat.{ℕ}
use mathlib.Core.Bool.{Bool, true, false, not}
use mathlib.Core.Option.{Option, none, some}
use mathlib.Core.List.{List, [], ◌∷◌, map}
use mathlib.Core.Path.{◌≡◌}

-- `number` is a number that is no natural one, by its text; it is never zero.
mutual
  pub data Json : Type 0 where
    null : Json
    bool : Bool → Json
    num : ℕ → Json
    number : String → Json
    str : String → Json
    arr : Items → Json
    obj : Fields → Json

  pub data Items : Type 0 where
    nil : Items
    cons : Json → Items → Items

  pub data Fields : Type 0 where
    end : Fields
    field : String → Json → Fields → Fields

-- A dict of Python with texts as keys.
abbrev pub Meta : Type 0
Meta = Dict String Json

abbrev pub to_items : List Json → Items
to_items [] = nil
to_items (x ∷ xs) = cons x (to_items xs)

abbrev pub items : Items → List Json
items nil = []
items (cons x xs) = x ∷ items xs

abbrev pub to_fields : Meta → Fields
to_fields [] = end
to_fields ((k, v) ∷ d) = field k v (to_fields d)

abbrev pub fields : Fields → Meta
fields end = []
fields (field k v d) = (k, v) ∷ fields d

abbrev pub keys : Fields → List Json
keys end = []
keys (field k v d) = str k ∷ keys d

-- A list of texts as a value.
abbrev pub texts : List String → Json
texts xs = arr (to_items (map str xs))

-- `bool(value)`
abbrev pub truthy : Json → Bool
truthy null = false
truthy (bool b) = b
truthy (num n) = not (n == 0)
truthy (number t) = true
truthy (str s) = not (s == "")
truthy (arr nil) = false
truthy (arr (cons x xs)) = true
truthy (obj end) = false
truthy (obj (field k v d)) = true

-- `d.get(key)`
abbrev pub at : String → Meta → Json
at key d = elim (Dict.get key d) [ none ↦ null | some v ↦ v ]

-- `d.setdefault(key, value)`
unfoldable pub set_default : String → Json → Meta → Meta
set_default key v d = elim (Dict.get key d) [ none ↦ Dict.set key v d | some w ↦ d ]

-- `d.update(e)`, and `{**d, **e}`
unfoldable pub update : Meta → Meta → Meta
update [] d = d
update ((k, v) ∷ e) d = update e (Dict.set k v d)

-- What the built-in functions and the standard library do with texts.
pub record Python : Type 0 where
  -- `str(value)`
  pub show : Json → String
  pub strip : String → String
  pub lower : String → String
  pub split : String → String → List String
  pub splitlines : String → List String
  -- `list(text)`
  pub chars : String → List String
  -- `re.sub(r"[^a-z0-9_-]+", "_", text)`
  pub re_slug : String → String
  -- `text.strip("_")`
  pub strip_underscores : String → String
  -- `text.strip("/")`
  pub strip_slashes : String → String
  -- `list(PurePosixPath(text).parts)`
  pub path_parts : String → List String
  -- pydantic's validation of a field `int | None`; `none` is a ValidationError
  pub optional_int : Json → Option Json

-- What the documentation says of `str`.
pub record IsPython (py : Python) : Type 0 where
  pub show-str : (s : String) → py.show (str s) ≡ s

module _ (py : Python) where
  -- `str(value or "")`
  abbrev pub text_or_empty : Json → String
  text_or_empty v = if truthy v then py.show v else ""

  -- `str(d.get(key, "") or "")`
  abbrev pub text_at : String → Meta → String
  text_at key d = text_or_empty (at key d)

-- `separator.join(xs)`
unfoldable pub join : String → List String → String
join separator [] = ""
join separator (x ∷ []) = x
join separator (x ∷ y ∷ xs) = x <> (separator <> join separator (y ∷ xs))
