-- ===== src/Namespace/Chain.antt =====
-- `parent_chain`: the ancestors of a uri, from the root down, and the uri itself.
use mathlib.Core.Path.{subst}
use mathlib.Core.List.{append_assoc, map-append}
use Prim.Native.String.{◌++◌ as ◌<>◌, len, slice}
use text.Mathlib.Text.{starts_with}
use text.Mathlib.TextPositions.{starts_with-append, slice-append_right, len-append}
use open_cortex.Base.{
  ℕ, ◌≤◌, ◌≡◌, zero, suc, refl, sym, ap, ◌∙◌, String, Bool, false, Option, none, some, List, [],
  ◌∷◌, ◌++◌, map, ◌==◌, string_eq, eq_iff, arith, Bool-cases, inl, inr,
}
use open_cortex.Base.Lists.{any, length}
use open_cortex.Base.Json.{Python, join}
use open_cortex.Namespace.Defs.{
  prefix, parent_parts, uri_of, named, checked, path, parent, chain_loop, segments, parent_chain,
}

-- What PurePosixPath promises of a text without slashes at its ends, whose path is relative: the path
-- that its first parts make has these parts again.
pub record IsPosix (py : Python) : Type 0 where
  pub parts-join :
      (t : String) (xs ys : List String)
      → named (py.path_parts (py.strip_slashes t)) ≡ xs ++ ys
      → named (py.path_parts (py.strip_slashes (join "/" xs))) ≡ xs

-- The non-empty proper prefixes, the shortest first.
unfoldable pub proper_prefixes : List String → List (List String)
proper_prefixes [] = []
proper_prefixes (x ∷ []) = []
proper_prefixes (x ∷ y ∷ xs) = (x ∷ []) ∷ map (λ p. x ∷ p) (proper_prefixes (y ∷ xs))

proper_prefixes-parent_parts :
    (x y : String) (xs : List String)
    → proper_prefixes (x ∷ y ∷ xs)
      ≡ proper_prefixes (parent_parts (x ∷ y ∷ xs)) ++ parent_parts (x ∷ y ∷ xs) ∷ []
unfolding proper_prefixes parent_parts
proper_prefixes-parent_parts x y [] = refl
proper_prefixes-parent_parts x y (z ∷ xs) =
    ap (λ t. (x ∷ []) ∷ map (λ p. x ∷ p) t) (proper_prefixes-parent_parts y z xs)
    ∙ ap (λ t. (x ∷ []) ∷ t)
        (map-append (λ p. x ∷ p) (proper_prefixes (parent_parts (y ∷ z ∷ xs)))
          (parent_parts (y ∷ z ∷ xs) ∷ []))

length-parent_parts :
    (x y : String) (xs : List String)
    → length (x ∷ y ∷ xs) ≡ suc (length (parent_parts (x ∷ y ∷ xs)))
unfolding parent_parts
length-parent_parts x y [] = refl
length-parent_parts x y (z ∷ xs) = ap suc (length-parent_parts y z xs)

parent_parts-append :
    (x y : String) (xs : List String)
    → (z : String) × ((x ∷ y ∷ xs) ≡ parent_parts (x ∷ y ∷ xs) ++ z ∷ [])
unfolding parent_parts
parent_parts-append x y [] = (y, refl)
parent_parts-append x y (z ∷ xs) = let r = parent_parts-append y z xs in (r.0, ap (λ t. x ∷ t) r.1)

any-append_left :
    (p : String → Bool) (xs ys : List String) → any p (xs ++ ys) ≡ false → any p xs ≡ false
any-append_left p [] ys h = refl
any-append_left p (x ∷ xs) ys h = ground (arith, any-append_left p xs ys)

none-ne-some : {A : Type 0} (a : A) → ¬ (◌≡◌ {A = Option A} none (some a))
none-ne-some a h = cc

checked-some :
    (xs ps : List String)
    → checked xs ≡ some ps
    → (xs ≡ ps)
      × (any (λ q. q == "..") ps ≡ false)
      × ((x : String) × (ys : List String) × (ps ≡ x ∷ ys))
unfolding checked
checked-some [] ps h = cc
checked-some (x ∷ xs) ps h = elim (Bool-cases (any (λ q. q == "..") (x ∷ xs))) [
  | inl d ↦ ground (arith, d, h)
  | inr d ↦
      let e : (x ∷ xs) ≡ ps = ground (arith, d, h) in
      (e, subst (λ t. any (λ q. q == "..") t ≡ false) e d, (x, xs, sym e))
]

checked_parts :
    (x : String) (xs : List String)
    → any (λ q. q == "..") (x ∷ xs) ≡ false
    → checked (x ∷ xs) ≡ some (x ∷ xs)
unfolding checked
checked_parts x xs h = rw h refl

module _ (py : Python) (posix : IsPosix py) where
  -- A path comes from the parts of a text, without "..".
  path-some :
      (uri : String) (parts : List String)
      → path py uri ≡ some parts
      → (t : String) × (named (py.path_parts (py.strip_slashes t)) ≡ parts)
        × (any (λ q. q == "..") parts ≡ false)
        × ((x : String) × (ys : List String) × (parts ≡ x ∷ ys))
  unfolding path
  path-some uri parts h = elim (Bool-cases (starts_with uri prefix)) [
    | inr n ↦ ground (arith, n, h)
    | inl y ↦
        let t = slice uri (len prefix) (len uri) in
        let c =
          checked-some (named (py.path_parts (py.strip_slashes t))) parts (ground (arith, y, h)) in
        (t, c.0, c.1, c.2)
  ]

  uri_rest : (j : String) → slice (prefix <> j) (len prefix) (len (prefix <> j)) ≡ j
  uri_rest j =
      ap (λ k. slice (prefix <> j) (len prefix) k) (len-append prefix j)
      ∙ slice-append_right prefix j

  -- The first parts of a path make a uri of that path.
  path-uri_of :
      (uri x : String) (xs ys : List String)
      → path py uri ≡ some ((x ∷ xs) ++ ys)
      → path py (uri_of (x ∷ xs)) ≡ some (x ∷ xs)
  unfolding path uri_of
  path-uri_of uri x xs ys h =
      let p = path-some uri ((x ∷ xs) ++ ys) h in
      rw
        (
          starts_with-append prefix (join "/" (x ∷ xs)),
          uri_rest (join "/" (x ∷ xs)),
          posix.parts-join p.0 (x ∷ xs) ys p.1,
        )
        (checked_parts x xs (any-append_left (λ q. q == "..") (x ∷ xs) ys p.2))

  path_empty : path py "" ≡ none
  unfolding path
  path_empty = refl

  pub nonempty : (uri : String) (ps : List String) → path py uri ≡ some ps → (uri == "") ≡ false
  nonempty uri ps h = elim (Bool-cases (uri == "")) [
    | inr n ↦ n
    | inl y ↦
        absurd (none-ne-some ps (sym path_empty ∙ ap (path py) (sym ((eq_iff uri "").0 y)) ∙ h))
  ]

  chain_end : (fuel : ℕ) (acc : List String) → chain_loop py fuel "" acc ≡ acc
  unfolding chain_loop
  chain_end zero acc = refl
  chain_end (suc fuel) acc = refl

  chain_round :
      (fuel : ℕ) (uri : String) (acc : List String)
      → (uri == "") ≡ false
      → chain_loop py (suc fuel) uri acc ≡ chain_loop py fuel (parent py uri) (uri ∷ acc)
  unfolding chain_loop
  chain_round fuel uri acc h = ground (arith, h)

  parent_root : (uri x : String) → path py uri ≡ some (x ∷ []) → parent py uri ≡ ""
  unfolding parent
  parent_root uri x h = rw (parent, h) refl

  parent_deep :
      (uri x y : String) (xs : List String)
      → path py uri ≡ some (x ∷ y ∷ xs)
      → parent py uri ≡ uri_of (parent_parts (x ∷ y ∷ xs))
  unfolding parent
  parent_deep uri x y xs h = rw (parent, h) (ground arith)

  chain_step :
      (n : ℕ) (uri x : String) (xs acc : List String)
      → path py uri ≡ some (x ∷ xs)
      → length (x ∷ xs) ≤ suc n
      → chain_loop py (suc (suc n)) uri acc ≡ map uri_of (proper_prefixes (x ∷ xs)) ++ uri ∷ acc
  unfolding proper_prefixes parent_parts
  chain_step n uri x [] acc h l =
      chain_round (suc n) uri acc (nonempty uri (x ∷ []) h)
      ∙ ap (λ u. chain_loop py (suc n) u (uri ∷ acc)) (parent_root uri x h)
      ∙ chain_end (suc n) (uri ∷ acc)
  chain_step zero uri x (y ∷ xs) acc h l = absurd (omega (arith, l))
  chain_step (suc n) uri x (y ∷ xs) acc h l =
      let up : List String = parent_parts (x ∷ y ∷ xs) in
      let z = parent_parts-append x y xs in
      let above = proper_prefixes up in
      chain_round (suc (suc n)) uri acc (nonempty uri (x ∷ y ∷ xs) h)
      ∙ ap (λ u. chain_loop py (suc (suc n)) u (uri ∷ acc)) (parent_deep uri x y xs h)
      ∙ chain_step n (uri_of up) x (parent_parts (y ∷ xs)) (uri ∷ acc)
          (path-uri_of uri x (parent_parts (y ∷ xs)) (z.0 ∷ []) (h ∙ ap some z.1))
          (omega (arith, l, length-parent_parts x y xs))
      ∙ sym (append_assoc (map uri_of above) (uri_of up ∷ []) (uri ∷ acc))
      ∙ ap (λ t. t ++ uri ∷ acc)
          (sym (
            ap (map uri_of) (proper_prefixes-parent_parts x y xs)
            ∙ map-append uri_of above (up ∷ [])))

  segments-path : (uri : String) (ps : List String) → path py uri ≡ some ps → segments py uri ≡ ps
  unfolding segments
  segments-path uri ps h = rw (segments, h) refl

  -- The chain of a uri with a path: the uris of the first parts, from the root down, then the uri.
  pub parent_chain_lem :
      (uri : String) (ps : List String)
      → path py uri ≡ some ps
      → parent_chain py uri ≡ map uri_of (proper_prefixes ps) ++ uri ∷ []
  unfolding parent_chain
  parent_chain_lem uri ps h =
      let p = path-some uri ps h in
      let x = p.3.0 in
      let xs = p.3.1 in
      ap (λ t. chain_loop py (suc (suc (length t))) uri []) (segments-path uri ps h ∙ p.3.2)
      ∙ chain_step (length (x ∷ xs)) uri x xs [] (h ∙ ap some p.3.2) (omega arith)
      ∙ ap (λ t. map uri_of (proper_prefixes t) ++ uri ∷ []) (sym p.3.2)
