-- ===== src/Index/Dashes.antt =====
-- Texts that are joined by dashes, and what stands between the dashes.
use Prim.Native.Char.{Char, code}
use Prim.Native.String.{◌++◌ as ◌<>◌}
use text.Mathlib.TextLemmas.{nil-append, cons-append, append_assoc}
use open_cortex.Base.{
  arith, ◌≡◌, refl, sym, ap, ◌∙◌, String, Bool, true, not, ◌&&◌, List, [], ◌∷◌, ◌++◌, if◌then◌else◌,
  ◌==◌, nat_eq,
}
use open_cortex.Base.Lists.{All}
use open_cortex.Base.Json.{join}

-- No character is a dash.
unfoldable pub is_dashless : String → Bool
is_dashless String.[] = true
is_dashless (String.◌∷◌ c s) = not (code c == 45) && is_dashless s

push_char : Char → List String → List String
push_char c [] = String.◌∷◌ c "" ∷ []
push_char c (x ∷ xs) = String.◌∷◌ c x ∷ xs

-- `text.split("-")`
between_dashes : String → List String
between_dashes String.[] = "" ∷ []
between_dashes (String.◌∷◌ c s) =
    let rest = between_dashes s in if code c == 45 then "" ∷ rest else push_char c rest

between-end : (a : String) → is_dashless a ≡ true → between_dashes a ≡ a ∷ []
unfolding is_dashless between_dashes push_char
between-end String.[] h = refl
between-end (String.◌∷◌ c s) h = ground (arith, between-end s)

between-dash : (s : String) → between_dashes ("-" <> s) ≡ "" ∷ between_dashes s
unfolding between_dashes
between-dash s =
    let dash : Char = "-" in
    ap between_dashes (cons-append dash "" s ∙ ap (λ t. String.◌∷◌ dash t) (nil-append s))

between-append :
    (a s : String) → is_dashless a ≡ true → between_dashes (a <> ("-" <> s)) ≡ a ∷ between_dashes s
unfolding is_dashless between_dashes push_char
between-append String.[] s h = ap between_dashes (nil-append ("-" <> s)) ∙ between-dash s
between-append (String.◌∷◌ c a) s h =
    ap between_dashes (cons-append c a ("-" <> s)) ∙ ground (arith, between-append a s)

-- The parts of a text that joins them by dashes, with one more at its end.
between-join :
    (x : String) (xs : List String) (d : String)
    → All (λ p. is_dashless p ≡ true) (x ∷ xs)
    → is_dashless d ≡ true
    → between_dashes (join "-" (x ∷ xs) <> ("-" <> d)) ≡ (x ∷ xs) ++ d ∷ []
unfolding join
between-join x [] d h k = between-append x d h.0 ∙ ap (λ t. x ∷ t) (between-end d k)
between-join x (y ∷ xs) d h k =
    ap between_dashes (
      append_assoc x ("-" <> join "-" (y ∷ xs)) ("-" <> d)
      ∙ ap (λ t. x <> t) (append_assoc "-" (join "-" (y ∷ xs)) ("-" <> d)))
    ∙ between-append x (join "-" (y ∷ xs) <> ("-" <> d)) h.0
    ∙ ap (λ t. x ∷ t) (between-join y xs d h.1 k)

-- All but the last, of a list that is not empty.
abbrev front : List String → List String
front [] = []
front (x ∷ []) = []
front (x ∷ y ∷ xs) = x ∷ front (y ∷ xs)

front-append : (xs : List String) (d : String) → front (xs ++ d ∷ []) ≡ xs
front-append [] d = refl
front-append (x ∷ []) d = refl
front-append (x ∷ y ∷ xs) d = ap (λ t. x ∷ t) (front-append (y ∷ xs) d)

-- Joined texts are the same only if their parts are.
pub join_inj :
    (x y : String) (xs ys : List String) (d e : String)
    → All (λ p. is_dashless p ≡ true) (x ∷ xs)
    → All (λ p. is_dashless p ≡ true) (y ∷ ys)
    → is_dashless d ≡ true
    → is_dashless e ≡ true
    → join "-" (x ∷ xs) <> ("-" <> d) ≡ join "-" (y ∷ ys) <> ("-" <> e)
    → (x ∷ xs) ≡ (y ∷ ys)
join_inj x y xs ys d e hx hy hd he same =
    sym (front-append (x ∷ xs) d)
    ∙ ap front
        (sym (between-join x xs d hx hd) ∙ ap between_dashes same ∙ between-join y ys e hy he)
    ∙ front-append (y ∷ ys) e
