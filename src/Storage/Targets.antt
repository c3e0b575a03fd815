-- ===== src/Storage/Targets.antt =====
-- The targets of a table without one of them, and ids that are new.
use mathlib.Core.List.{append_assoc}
use open_cortex.Base.{
  arith, ℕ, zero, suc, ◌+◌, ◌≡◌, refl, sym, ap, ◌∙◌, String, true, false, Option, none, some, List,
  [], ◌∷◌, ◌++◌, string_eq, if◌then◌else◌, if_case, eq_iff,
}
use open_cortex.Base.Lists.{contains}
use open_cortex.Base.Json.{Python, num}
use Prim.Native.String.{◌++◌ as ◌<>◌}
use open_cortex.Storage.Defs.{
  RelationEntry, free_id, targets_of, remove_first, or_gone, after_entry, unlinked,
}

contains-append :
    (x : String) (xs ys : List String)
    → contains x (xs ++ ys) ≡ (if contains x xs then true else contains x ys)
contains-append x [] ys = refl
contains-append x (y ∷ xs) ys = ground (arith, contains-append x xs ys)

remove_first_left :
    (x : String) (xs ys : List String)
    → contains x xs ≡ true
    → remove_first x (xs ++ ys) ≡ remove_first x xs ++ ys
unfolding remove_first
remove_first_left x [] ys h = ground arith
remove_first_left x (y ∷ xs) ys h = ground (arith, remove_first_left x xs ys)

pub remove_first_right :
    (x : String) (xs ys : List String)
    → contains x xs ≡ false
    → remove_first x (xs ++ ys) ≡ xs ++ remove_first x ys
unfolding remove_first
remove_first_right x [] ys h = refl
remove_first_right x (y ∷ xs) ys h = ground (arith, remove_first_right x xs ys)

pub remove_first_absent :
    (x : String) (xs : List String) → contains x xs ≡ false → remove_first x xs ≡ xs
unfolding remove_first
remove_first_absent x [] h = refl
remove_first_absent x (y ∷ xs) h = ground (arith, remove_first_absent x xs)

pub remove_first_self : (x : String) → remove_first x (x ∷ []) ≡ []
unfolding remove_first
remove_first_self x = ground (arith, eq_iff x x)

targets_of-or_gone :
    (e : RelationEntry) (ts : List String) (es : List RelationEntry)
    → targets_of (or_gone e ts es) ≡ ts ++ targets_of es
unfolding or_gone targets_of
targets_of-or_gone e [] es = refl
targets_of-or_gone e (t ∷ ts) es = refl

pub targets_of-append :
    (es fs : List RelationEntry) → targets_of (es ++ fs) ≡ targets_of es ++ targets_of fs
unfolding targets_of
targets_of-append [] fs = refl
targets_of-append (e ∷ es) fs =
    ap (λ t. e.targets ++ t) (targets_of-append es fs)
    ∙ sym (append_assoc e.targets (targets_of es) (targets_of fs))

-- What a round of unlinking leaves: the targets without the first that is the uri, or none of them is.
abbrev pub Removed : String → List String → Option (List RelationEntry) → Type 0
Removed uri before none = contains uri before ≡ false
Removed uri before (some es) =
    (targets_of es ≡ remove_first uri before) × (contains uri before ≡ true)

after_entry-Removed :
    (uri : String) (e : RelationEntry) (before : List String) (o : Option (List RelationEntry))
    → contains uri e.targets ≡ false
    → Removed uri before o
    → Removed uri (e.targets ++ before) (after_entry e o)
unfolding after_entry targets_of
after_entry-Removed uri e before none h r = ground (arith, contains-append uri e.targets before)
after_entry-Removed uri e before (some es) h r = (
  ap (λ t. e.targets ++ t) r.0 ∙ sym (remove_first_right uri e.targets before h),
  ground (arith, contains-append uri e.targets before),
)

pub unlinked-Removed :
    (uri : String) (es : List RelationEntry) → Removed uri (targets_of es) (unlinked uri es)
unfolding unlinked targets_of
unlinked-Removed uri [] = refl
unlinked-Removed uri (e ∷ es) =
    if_case (Removed uri (e.targets ++ targets_of es)) (contains uri e.targets) _ _
      (λ h. (
        targets_of-or_gone e (remove_first uri e.targets) es
            ∙ sym (remove_first_left uri e.targets (targets_of es) h),
        ground (arith, contains-append uri e.targets (targets_of es)),
      ))
      (λ h. after_entry-Removed uri e (targets_of es) (unlinked uri es) h (unlinked-Removed uri es))

-- An id that is found is no other entry's.
abbrev pub IsNew : List String → Option String → Type 0
IsNew ids none = Unit
IsNew ids (some id) = contains id ids ≡ false

pub free_id-IsNew :
    (py : Python) (rounds index : ℕ) (ids : List String) → IsNew ids (free_id py rounds index ids)
unfolding free_id
free_id-IsNew py zero index ids = tt
free_id-IsNew py (suc rounds) index ids =
    if_case (IsNew ids) (contains ("link_" <> py.show (num index)) ids) _ _
      (λ h. free_id-IsNew py rounds (index + 1) ids) (λ h. h)
