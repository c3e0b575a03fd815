-- ===== src/Forget/Tests.antt =====
-- A store of one record, and requests to forget it.
use mathlib.Core.Path.{subst}
use open_cortex.Base.{
  ◌≡◌, ◌⊎◌, inl, inr, refl, ap, sym, ◌∙◌, eq_iff, ◌||◌, ◌&&◌, Option, String, Bool, true, false,
  none, some, List, [], ◌∷◌, string_eq, nat_eq, ◌==◌, if◌then◌else◌, arith,
}
use open_cortex.Base.Lists.{All, contains}
use open_cortex.Base.Dict
use open_cortex.Base.Plain.{plain}
use open_cortex.Base.Json.{Json, null, bool, num, number, str, arr, obj, Meta}
use open_cortex.Worker.Failure.{Result, ok}
use open_cortex.Worker.Events.{IdentityProfile}
use open_cortex.Forget.Defs.{
  Condition, field_match, match_any, Stores, Filter, MemoryForgetRequest, forget,
}
use open_cortex.Forget.Visibility.{Holds, Some, Meets, Respects, IsVisible, forget-keeps}

abbrev alice : IdentityProfile
alice = record {
  tenant_id = "acme";
  user_id = "alice";
  project_id = "demo";
  session_id = "s1";
  collection = "main";
}

abbrev note : Meta
note =
    ("uri", str "opencortex://acme/alice/note")
    ∷ ("tenant_id", str "acme")
    ∷ ("project_id", str "demo")
    ∷ ("user_id", str "alice")
    ∷ ("retrieval_surface", str "l0_object")
    ∷ ("context_type", str "memory")
    ∷ []

abbrev is_text : String → Json → Bool
is_text v (str s) = s == v
is_text v _ = false

abbrev has_text : String → String → Bool
has_text key v = elim (Dict.get key note) [ none ↦ false | some j ↦ is_text v j ]

abbrev note_holds : Condition → Bool
note_holds (field_match key v) = has_text key v
note_holds (match_any key []) = false
note_holds (match_any key (v ∷ vs)) = has_text key v || note_holds (match_any key vs)

abbrev all_hold : List Condition → Bool
all_hold [] = true
all_hold (c ∷ cs) = note_holds c && all_hold cs

abbrev some_hold : List Condition → Bool
some_hold [] = false
some_hold (c ∷ cs) = note_holds c || some_hold cs

abbrev meets : Filter → Bool
meets f = all_hold f.must && (f.min_should == 0 || some_hold f.should)

is_text-str : (v : String) (j : Json) → is_text v j ≡ true → j ≡ str v
is_text-str v (str s) h = ap str ((eq_iff s v).0 h)
is_text-str v null h = ground (arith, h)
is_text-str v (bool b) h = ground (arith, h)
is_text-str v (num n) h = ground (arith, h)
is_text-str v (number t) h = ground (arith, h)
is_text-str v (arr xs) h = ground (arith, h)
is_text-str v (obj d) h = ground (arith, h)

found-Holds :
    (key v : String) (o : Option Json)
    → elim o [ none ↦ false | some j ↦ is_text v j ] ≡ true
    → o ≡ some (str v)
found-Holds key v none h = ground (arith, h)
found-Holds key v (some j) h = ap some (is_text-str v j h)

or-Holds :
    (r : Meta) (a b : Bool) (A B : Type 0)
    → (a ≡ true → A)
    → (b ≡ true → B)
    → (a || b) ≡ true
    → A ⊎ B
or-Holds r true b A B f g h = inl (f refl)
or-Holds r false b A B f g h = inr (g h)

note_holds-Holds : (c : Condition) → note_holds c ≡ true → Holds note c
note_holds-Holds (field_match key v) h = found-Holds key v (Dict.get key note) h
note_holds-Holds (match_any key []) h = ground (arith, h)
note_holds-Holds (match_any key (v ∷ vs)) h =
    elim (or-Holds note (has_text key v) (note_holds (match_any key vs))
      (Holds note (field_match key v)) (Holds note (match_any key vs))
      (found-Holds key v (Dict.get key note)) (note_holds-Holds (match_any key vs)) h) [
        | inl e ↦ (v, ground (arith, eq_iff v v), e)
        | inr x ↦ (x.0, ground (arith, x.1), x.2)
      ]

all_hold-All : (cs : List Condition) → all_hold cs ≡ true → All (Holds note) cs
all_hold-All [] h = tt
all_hold-All (c ∷ cs) h =
    (note_holds-Holds c (ground (arith, h)), all_hold-All cs (ground (arith, h)))

some_hold-Some : (cs : List Condition) → some_hold cs ≡ true → Some note cs
some_hold-Some [] h = absurd (ground (arith, h))
some_hold-Some (c ∷ cs) h =
    or-Holds note (note_holds c) (some_hold cs) (Holds note c) (Some note cs) (note_holds-Holds c)
      (some_hold-Some cs) h

meets-Meets : (f : Filter) → meets f ≡ true → Meets f note
meets-Meets f h = (
  all_hold-All f.must (ground (arith, h)),
  or-Holds note (f.min_should == 0) (some_hold f.should) (f.min_should ≡ 0) (Some note f.should)
      (λ e. ground (arith, e)) (some_hold-Some f.should) (ground (arith, h)),
)

-- The uris that were removed; the filter looks at the note.
abbrev stores : Stores (List String)
stores = record {
  search = λ query n w. (ok ("opencortex://acme/alice/note" ∷ []), w);
  filter = λ f n w. (ok (if meets f then note ∷ [] else []), w);
  remove_by_uri = λ uri w. (ok 1, uri ∷ w);
  rm = λ uri w. (ok tt, uri ∷ w);
}

-- The note of another user was not removed.
abbrev Kept : List String → Type 0
Kept w = contains "opencortex://acme/bob/note" w ≡ false

abbrev request : MemoryForgetRequest
request = record { query = "the note"; uri = "" }

forget_run :
    (forget plain stores "user" alice request []).1
    ≡ "opencortex://acme/alice/note" ∷ "opencortex://acme/alice/note" ∷ []
unfolding forget Dict.get
forget_run = refl

first_note :
    (b : Bool) (r : Meta) (rs : List Meta)
    → ok (if b then note ∷ [] else []) ≡ ok (r ∷ rs)
    → (b ≡ true) × (r ≡ note)
first_note true r rs h = (refl, sym (ap first h))
  where
    first : Result (List Meta) → Meta
    first (ok (x ∷ xs)) = x
    first _ = note
first_note false r rs h = ground (arith, h)

text_in : Option Json → String
text_in (some (str s)) = s
text_in _ = ""

note_uri : Dict.get "uri" note ≡ some (str "opencortex://acme/alice/note")
unfolding Dict.get
note_uri = refl

removal-Kept :
    (uri : String) (r : Meta) (w : List String)
    → r ≡ note
    → IsVisible "user" alice uri r
    → Kept w
    → Kept (uri ∷ w)
unfolding text_in
removal-Kept uri r w e v k =
    let same : uri ≡ "opencortex://acme/alice/note" =
      ap text_in (sym v.0 ∙ ap (Dict.get "uri") e ∙ note_uri) in
    rw (same, k) refl

stores-Respects : Respects plain stores (λ r. r ≡ note) Kept "user" alice
stores-Respects = record {
  search = λ query n w k. k;
  filter = λ f n w k. k;
  returns = λ f n w r rs h.
      (let x = first_note (meets f) r rs h in (x.1, subst (Meets f) (sym x.1) (meets-Meets f x.0)));
  remove = λ uri r w e v k. (removal-Kept uri r w e v k, removal-Kept uri r w e v k);
}

forget-keeps_example : Kept (forget plain stores "user" alice request []).1
forget-keeps_example =
    forget-keeps plain stores (λ r. r ≡ note) Kept "user" alice stores-Respects request [] refl
