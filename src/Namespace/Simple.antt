-- ===== src/Namespace/Simple.antt =====
-- A simple library of paths that keeps the law of paths.
use mathlib.Core.Path.{subst}
use open_cortex.Base.{
  arith, ◌≡◌, ◌⊎◌, ◌∙◌, sym, refl, inl, inr, Bool-cases, String, List, [], ◌∷◌, ◌++◌, string_eq,
  if◌then◌else◌, ◌==◌,
}
use open_cortex.Base.Plain.{plain}
use open_cortex.Base.Json.{Python, join}
use open_cortex.Namespace.Defs.{named}
use open_cortex.Namespace.Chain.{IsPosix}

-- The parts of the paths in use.
abbrev pub parts : String → List String
parts t =
    if t == "acme/ann/notes"
    then "acme" ∷ "ann" ∷ "notes" ∷ []
    else if t == "acme/ann"
    then "acme" ∷ "ann" ∷ []
    else t ∷ []

abbrev pub posix : Python
posix = record plain { path_parts = parts }

abbrev two : List String
two = "acme" ∷ "ann" ∷ []

abbrev three : List String
three = "acme" ∷ "ann" ∷ "notes" ∷ []

-- The first parts of a path of three parts, of two, and of one.
join-three : (xs ys : List String) → three ≡ xs ++ ys → named (parts (join "/" xs)) ≡ xs
unfolding named join
join-three [] ys h = refl
join-three (x ∷ []) ys h =
    let ex : "acme" ≡ x = ground arith in subst (λ k. named (parts k) ≡ k ∷ []) ex refl
join-three (x ∷ y ∷ []) ys h =
    let ex : "acme" ≡ x = ground arith in
    let ey : "ann" ≡ y = ground arith in
    subst (λ a. named (parts (join "/" (a ∷ y ∷ []))) ≡ a ∷ y ∷ []) ex
      (subst (λ b. named (parts (join "/" ("acme" ∷ b ∷ []))) ≡ "acme" ∷ b ∷ []) ey refl)
join-three (x ∷ y ∷ z ∷ []) ys h =
    let ex : "acme" ≡ x = ground arith in
    let ey : "ann" ≡ y = ground arith in
    let ez : "notes" ≡ z = ground arith in
    subst (λ a. named (parts (join "/" (a ∷ y ∷ z ∷ []))) ≡ a ∷ y ∷ z ∷ []) ex
      (subst (λ b. named (parts (join "/" ("acme" ∷ b ∷ z ∷ []))) ≡ "acme" ∷ b ∷ z ∷ []) ey
        (subst (λ c. named (parts (join "/" ("acme" ∷ "ann" ∷ c ∷ []))) ≡ "acme" ∷ "ann" ∷ c ∷ [])
          ez refl))
join-three (x ∷ y ∷ z ∷ w ∷ xs) ys h = absurd (ground arith)

join-two : (xs ys : List String) → two ≡ xs ++ ys → named (parts (join "/" xs)) ≡ xs
unfolding named join
join-two [] ys h = refl
join-two (x ∷ []) ys h = join-three (x ∷ []) ("ann" ∷ "notes" ∷ []) (ground arith)
join-two (x ∷ y ∷ []) ys h = join-three (x ∷ y ∷ []) ("notes" ∷ []) (ground arith)
join-two (x ∷ y ∷ z ∷ xs) ys h = absurd (ground arith)

join_one :
    (t : String) (xs ys : List String)
    → named (parts t) ≡ t ∷ []
    → t ∷ [] ≡ xs ++ ys
    → named (parts (join "/" xs)) ≡ xs
unfolding named join
join_one t [] ys e h = refl
join_one t (x ∷ []) ys e h = subst (λ k. named (parts k) ≡ k ∷ []) (ground arith) e
join_one t (x ∷ y ∷ xs) ys e h = absurd (ground arith)

join_none : (xs ys : List String) → [] ≡ xs ++ ys → named (parts (join "/" xs)) ≡ xs
unfolding named join
join_none [] ys h = refl
join_none (x ∷ xs) ys h = absurd (ground arith)

parts_cases :
    (t : String)
    → (named (parts t) ≡ three)
      ⊎ (named (parts t) ≡ two)
      ⊎ (named (parts t) ≡ [])
      ⊎ (named (parts t) ≡ t ∷ [])
unfolding named
parts_cases t = elim (Bool-cases (t == "acme/ann/notes")) [
  | inl a ↦ inl (rw a refl)
  | inr a ↦ elim (Bool-cases (t == "acme/ann")) [
    | inl b ↦ inr (inl (rw (a, b) refl))
    | inr b ↦ elim (Bool-cases (t == "")) [
      | inl c ↦ inr (inr (inl (rw (a, b) (rw c refl))))
      | inr c ↦ elim (Bool-cases (t == ".")) [
        | inl d ↦ inr (inr (inl (rw (a, b) (rw (c, d) refl))))
        | inr d ↦ inr (inr (inr (rw (a, b) (rw (c, d) refl))))
      ]
    ]
  ]
]

parts-join_posix :
    (t : String) (xs ys : List String)
    → named (posix.path_parts (posix.strip_slashes t)) ≡ xs ++ ys
    → named (posix.path_parts (posix.strip_slashes (join "/" xs))) ≡ xs
parts-join_posix t xs ys h = elim (parts_cases t) [
  | inl e ↦ join-three xs ys (sym e ∙ h)
  | inr (inl e) ↦ join-two xs ys (sym e ∙ h)
  | inr (inr (inl e)) ↦ join_none xs ys (sym e ∙ h)
  | inr (inr (inr e)) ↦ join_one t xs ys e (sym e ∙ h)
]

pub posix-IsPosix : IsPosix posix
posix-IsPosix = record { parts-join = parts-join_posix }
