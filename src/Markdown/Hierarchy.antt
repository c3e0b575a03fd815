-- ===== src/Markdown/Hierarchy.antt =====
-- The parents of the chunks.
use mathlib.Core.Path.{subst}
use mathlib.Core.List.{append_assoc, append-nil}
use open_cortex.Base.{
  ℕ, suc, ◌+◌, ◌≤◌, ◌<◌, ◌≡◌, ◌⊎◌, inl, inr, refl, sym, ap, ◌∙◌, Option, some, List, [], ◌∷◌, ◌++◌,
  string_eq, nat_eq, arith,
}
use open_cortex.Base.Lists.{All, length, length-append}
use open_cortex.Markdown.Defs.{ParsedChunk}

-- The chunk of this index has the parent, or a parent from the first index to before its own.
abbrev pub Placed : Option ℕ → ℕ → ℕ → ParsedChunk → Type 0
Placed parent first k c =
    (c.parent_index ≡ parent) ⊎ ((i : ℕ) × (c.parent_index ≡ some i) × (first ≤ i) × (i < k))

-- So do all these chunks, the first of which has the second index.
unfoldable pub Attached : Option ℕ → ℕ → ℕ → List ParsedChunk → Type 0
Attached parent first k [] = Unit
Attached parent first k (c ∷ cs) = Placed parent first k c × Attached parent first (suc k) cs

-- The result has more chunks at its end, all below the parent.
pub record Added (parent : Option ℕ) (chunks result : List ParsedChunk) : Type 0 where
  pub added : List ParsedChunk
  pub split : result ≡ chunks ++ added
  pub attached : Attached parent (length chunks) (length chunks) added

Attached-append :
    (p : Option ℕ) (first k : ℕ) (xs ys : List ParsedChunk)
    → Attached p first k xs
    → Attached p first (length xs + k) ys
    → Attached p first k (xs ++ ys)
unfolding Attached
Attached-append p first k [] ys a b =
    let e : length {A = ParsedChunk} [] + k ≡ k = omega arith in
    subst (λ t. Attached p first t ys) e b
Attached-append p first k (x ∷ xs) ys a b =
    let e : length (x ∷ xs) + k ≡ length xs + suc k = omega arith in
    (a.0, Attached-append p first (suc k) xs ys a.1 (subst (λ t. Attached p first t ys) e b))

Placed-le :
    (p : Option ℕ) (first later k : ℕ) (c : ParsedChunk)
    → first ≤ later
    → Placed p later k c
    → Placed p first k c
Placed-le p first later k c l (inl e) = inl e
Placed-le p first later k c l (inr (i, e, m, n)) = inr (i, e, omega (arith, l, m), n)

Attached-le :
    (p : Option ℕ) (first later k : ℕ) (cs : List ParsedChunk)
    → first ≤ later
    → Attached p later k cs
    → Attached p first k cs
unfolding Attached
Attached-le p first later k [] l a = tt
Attached-le p first later k (c ∷ cs) l a =
    (Placed-le p first later k c l a.0, Attached-le p first later (suc k) cs l a.1)

-- What is attached to a chunk is attached to its parent's tree.
Placed-below :
    (p : Option ℕ) (first i later k : ℕ) (c : ParsedChunk)
    → first ≤ i
    → i < k
    → first ≤ later
    → Placed (some i) later k c
    → Placed p first k c
Placed-below p first i later k c l m n (inl e) = inr (i, e, l, m)
Placed-below p first i later k c l m n (inr (j, e, a, b)) = inr (j, e, omega (arith, n, a), b)

Attached-below :
    (p : Option ℕ) (first i later k : ℕ) (cs : List ParsedChunk)
    → first ≤ i
    → i < k
    → first ≤ later
    → Attached (some i) later k cs
    → Attached p first k cs
unfolding Attached
Attached-below p first i later k [] l m n a = tt
Attached-below p first i later k (c ∷ cs) l m n a = (
  Placed-below p first i later k c l m n a.0,
  Attached-below p first i later (suc k) cs l (omega (arith, m)) n a.1,
)

Attached-All :
    (p : Option ℕ) (first k : ℕ) (cs : List ParsedChunk)
    → All (λ c. c.parent_index ≡ p) cs
    → Attached p first k cs
unfolding Attached
Attached-All p first k [] a = tt
Attached-All p first k (c ∷ cs) a = (inl a.0, Attached-All p first (suc k) cs a.1)

pub Added-nil : (p : Option ℕ) (cs : List ParsedChunk) → Added p cs cs
unfolding Attached
Added-nil p cs = record { added = []; split = sym (append-nil cs); attached = tt }

pub Added-All :
    (p : Option ℕ) (cs xs : List ParsedChunk)
    → All (λ c. c.parent_index ≡ p) xs
    → Added p cs (cs ++ xs)
Added-All p cs xs a = record {
  added = xs;
  split = refl;
  attached = Attached-All p (length cs) (length cs) xs a;
}

lengths : (a b xs : List ParsedChunk) → b ≡ a ++ xs → length b ≡ length xs + length a
lengths a b xs e = omega (arith, ap length e ∙ length-append a xs)

pub Added-then : (p : Option ℕ) (a b c : List ParsedChunk) → Added p a b → Added p b c → Added p a c
Added-then p a b c x y = record {
  added = x.added ++ y.added;
  split = y.split ∙ ap (λ t. t ++ y.added) x.split ∙ append_assoc a x.added y.added;
  attached = Attached-append p (length a) (length a) x.added y.added x.attached (
      subst (λ t. Attached p (length a) t y.added) (lengths a b x.added x.split)
        (Attached-le p (length a) (length b) (length b) y.added
          (omega (arith, lengths a b x.added x.split)) y.attached));
}

-- A chunk with the parent, and then chunks below that chunk.
pub Added-below :
    (p : Option ℕ) (a c : List ParsedChunk) (d : ParsedChunk)
    → d.parent_index ≡ p
    → Added (some (length a)) (a ++ d ∷ []) c
    → Added p a c
Added-below p a c d e y =
    let b = a ++ d ∷ [] in
    let n = lengths a b (d ∷ []) refl in
    record {
      added = d ∷ y.added;
      split = y.split ∙ append_assoc a (d ∷ []) y.added;
      attached =
          Attached-append p (length a) (length a) (d ∷ []) y.added
            (Attached-All p (length a) (length a) (d ∷ []) (e, tt))
            (subst (λ t. Attached p (length a) t y.added) n
              (Attached-below p (length a) (length a) (length b) (length b) y.added (omega arith)
                (omega (arith, n)) (omega (arith, n)) y.attached));
    }
