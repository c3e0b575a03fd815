-- ===== src/Store/Ancestors.antt =====
-- What is in the vector store after a write.
use mathlib.Core.List.{append_assoc, append-nil}
use mathlib.Core.Path.{subst}
use open_cortex.Base.{
  ◌≡◌, refl, sym, ap, ◌∙◌, String, true, some, List, [], ◌∷◌, ◌++◌, map, ◌==◌, string_eq, Bool,
  false, if◌then◌else◌, arith, not, ◌||◌,
}
use open_cortex.Base.Dict
use open_cortex.Base.Json.{Meta, Python, str, at, text_at}
use open_cortex.Namespace.{uri_of, path, parent, parent_chain}
use open_cortex.Namespace.Chain.{IsPosix, proper_prefixes, nonempty, parent_chain_lem}
use open_cortex.Worker.Failure.{Result, ok, err}
use open_cortex.Forget.{continue, ◌>>=◌}
use open_cortex.Records.{PrimaryRecordInput, StoredRecord}
use open_cortex.Store.Primary.{
  Writer, put_all, parent_record, directories, ensure_parent_records, stored_record, stored_as,
  write_prepared,
}

-- The first records of a list of results, in its order: those that are made.
abbrev pub Front : List Meta → List (Result Meta) → Type 0
Front [] rs = Unit
Front (p ∷ ps) [] = ⊥
Front (p ∷ ps) (r ∷ rs) = (r ≡ ok p) × Front ps rs

-- All of a list of results.
abbrev pub Whole : List Meta → List (Result Meta) → Type 0
Whole [] [] = Unit
Whole [] (r ∷ rs) = ⊥
Whole (p ∷ ps) [] = ⊥
Whole (p ∷ ps) (r ∷ rs) = (r ≡ ok p) × Whole ps rs

-- After a call that stores these records: some of the first ones are stored, and all after a result.
abbrev pub Leaves : {A : Type 0} → List Meta → List (Result Meta) → List Meta → Result A → Type 0
Leaves before rs after (ok a) = (ps : List Meta) × (after ≡ before ++ ps) × Whole ps rs
Leaves before rs after (err e) = (ps : List Meta) × (after ≡ before ++ ps) × Front ps rs

Whole-Front : (ps : List Meta) (rs : List (Result Meta)) → Whole ps rs → Front ps rs
Whole-Front [] rs h = tt
Whole-Front (p ∷ ps) [] h = h
Whole-Front (p ∷ ps) (r ∷ rs) h = (h.0, Whole-Front ps rs h.1)

Front-append : (ps : List Meta) (rs rs' : List (Result Meta)) → Front ps rs → Front ps (rs ++ rs')
Front-append [] rs rs' h = tt
Front-append (p ∷ ps) [] rs' h = absurd h
Front-append (p ∷ ps) (r ∷ rs) rs' h = (h.0, Front-append ps rs rs' h.1)

Whole-append :
    (ps : List Meta) (rs : List (Result Meta)) (p : Meta)
    → Whole ps rs
    → Whole (ps ++ p ∷ []) (rs ++ ok p ∷ [])
Whole-append [] [] p h = (refl, tt)
Whole-append [] (r ∷ rs) p h = absurd h
Whole-append (q ∷ ps) [] p h = absurd h
Whole-append (q ∷ ps) (r ∷ rs) p h = (h.0, Whole-append ps rs p h.1)

Leaves-cons :
    {A : Type 0} (before before' after : List Meta) (p : Meta) (rs : List (Result Meta))
    (r : Result A)
    → before' ≡ before ++ p ∷ []
    → Leaves before' rs after r
    → Leaves before (ok p ∷ rs) after r
Leaves-cons before before' after p rs (ok a) e h =
    (p ∷ h.0, h.1 ∙ ap (λ t. t ++ h.0) e ∙ append_assoc before (p ∷ []) h.0, (refl, h.2))
Leaves-cons before before' after p rs (err x) e h =
    (p ∷ h.0, h.1 ∙ ap (λ t. t ++ h.0) e ∙ append_assoc before (p ∷ []) h.0, (refl, h.2))

module _ {World Vector : Type 0} (py : Python) (writer : Writer World Vector) where
  if_not {ℓ} : {A : Type ℓ} (b : Bool) (x y : A) → b ≡ false → (if b then x else y) ≡ y
  if_not b x y h = rw h refl

  -- The directory of a uri, below that of its parent.
  abbrev pub IsDirectory : String → Result Meta → Type 0
  IsDirectory uri r =
      (fields : Meta) × (r ≡ writer.directory fields)
      × (at "id" fields ≡ str uri)
      × (at "uri" fields ≡ str uri)
      × (at "parent_uri" fields ≡ str (parent py uri))

  abbrev pub AreDirectories : List String → List (Result Meta) → Type 0
  AreDirectories [] [] = Unit
  AreDirectories [] (r ∷ rs) = ⊥
  AreDirectories (u ∷ us) [] = ⊥
  AreDirectories (u ∷ us) (r ∷ rs) = IsDirectory u r × AreDirectories us rs

  parent_record-IsDirectory :
      writer.has_namespace ≡ true
      → (rec : Meta) (uri : String) → IsDirectory uri (parent_record py writer uri rec)
  unfolding parent_record Dict.get
  parent_record-IsDirectory spaced rec uri = (_, refl, refl, refl, rw spaced refl)

  map-AreDirectories :
      writer.has_namespace ≡ true
      → (rec : Meta) (us : List String)
      → AreDirectories us (map (λ uri. parent_record py writer uri rec) us)
  map-AreDirectories spaced rec [] = tt
  map-AreDirectories spaced rec (u ∷ us) =
      (parent_record-IsDirectory spaced rec u, map-AreDirectories spaced rec us)

  directories-map :
      writer.has_namespace ≡ true
      → (rec : Meta) → (text_at py "parent_uri" rec == "") ≡ false
      → directories py writer rec
        ≡ map
            (λ uri. parent_record py writer uri rec)
            (parent_chain py (text_at py "parent_uri" rec))
  unfolding directories
  directories-map spaced rec h =
      if_not (text_at py "parent_uri" rec == "" || not writer.has_namespace) [] _
        (ground (arith, spaced, h))

  directories-AreDirectories :
      (posix : IsPosix py)
      → writer.has_namespace ≡ true
      → (rec : Meta) (ps : List String) → path py (text_at py "parent_uri" rec) ≡ some ps
      → AreDirectories
          (map uri_of (proper_prefixes ps) ++ text_at py "parent_uri" rec ∷ [])
          (directories py writer rec)
  directories-AreDirectories posix spaced rec ps h =
      let up = text_at py "parent_uri" rec in
      subst (AreDirectories (map uri_of (proper_prefixes ps) ++ up ∷ []))
        (sym (directories-map spaced rec (nonempty py posix up ps h)))
        (subst
          (λ us.
            AreDirectories us (map (λ uri. parent_record py writer uri rec) (parent_chain py up)))
          (parent_chain_lem py posix up ps h) (map-AreDirectories spaced rec (parent_chain py up)))

module _ {World Vector : Type 0} (py : Python) (writer : Writer World Vector)
    (log : World → List Meta) where
  -- What is stored: a point by a call that returns, and nothing by one that fails.
  abbrev pub Logged : Meta → List Meta → Result (Unit {0}) → World → Type 0
  Logged p before (ok u) w = log w ≡ before ++ p ∷ []
  Logged p before (err e) w = log w ≡ before

  abbrev pub Logs : Type 0
  Logs = (p : Meta) (w : World) → Logged p (log w) (writer.upsert p w).0 (writer.upsert p w).1

  module _ (logs : Logs) where
    put_step :
        (before : List Meta) (p : Meta) (rs : List (Result Meta)) (r : Result (Unit {0}))
        (w : World)
        → Logged p before r w
        → Leaves (log w) rs (log (put_all py writer rs w).1) (put_all py writer rs w).0
        → Leaves before
            (ok p ∷ rs)
            (log (continue (λ u. put_all py writer rs) r w).1)
            (continue (λ u. put_all py writer rs) r w).0
    put_step before p rs (ok u) w l h = Leaves-cons before (log w) _ p rs _ l h
    put_step before p rs (err e) w l h = ([], l ∙ sym (append-nil before), tt)

    put_all-Leaves :
        (rs : List (Result Meta)) (w : World)
        → Leaves (log w) rs (log (put_all py writer rs w).1) (put_all py writer rs w).0
    unfolding put_all
    put_all-Leaves [] w = ([], sym (append-nil (log w)), tt)
    put_all-Leaves (err e ∷ rs) w = ([], sym (append-nil (log w)), tt)
    put_all-Leaves (ok p ∷ rs) w =
        let r = writer.upsert p w in
        put_step (log w) p rs r.0 r.1 (logs p w) (put_all-Leaves rs r.1)

    -- The end of a write: the result is read of the record that is stored.
    told :
        (before : List Meta) (rs : List (Result Meta)) (w : World) (r : Result StoredRecord)
        → Leaves {A = Unit {0}} before rs (log w) (ok tt)
        → Leaves before rs (log w) r
    told before rs w (ok a) h = h
    told before rs w (err e) h = (h.0, h.1, Whole-Front h.0 rs h.2)

    last_step :
        (before : List Meta) (i : PrimaryRecordInput Vector) (rec : Meta) (rs : List (Result Meta))
        (ps : List Meta) (before' : List Meta) (r : Result (Unit {0})) (w : World)
        → before' ≡ before ++ ps
        → Whole ps rs
        → Logged rec before' r w
        → Leaves before
            (rs ++ ok rec ∷ [])
            (log (continue (λ u. stored_as py writer i rec) r w).1)
            (continue (λ u. stored_as py writer i rec) r w).0
    last_step before i rec rs ps before' (ok u) w e h l =
        told before (rs ++ ok rec ∷ []) w (stored_record py writer i rec) (
          ps ++ rec ∷ [],
          l ∙ ap (λ t. t ++ rec ∷ []) e ∙ append_assoc before ps (rec ∷ []),
          Whole-append ps rs rec h,
        )
    last_step before i rec rs ps before' (err x) w e h l =
        (ps, l ∙ e, Front-append ps rs (ok rec ∷ []) (Whole-Front ps rs h))

    record_step :
        (before : List Meta) (i : PrimaryRecordInput Vector) (rec : Meta) (rs : List (Result Meta))
        (r : Result (Unit {0})) (w : World)
        → Leaves before rs (log w) r
        → let after = continue (λ u. writer.upsert rec >>= λ v. stored_as py writer i rec) r w in
          Leaves before (rs ++ ok rec ∷ []) (log after.1) after.0
    record_step before i rec rs (ok u) w h =
        let r = writer.upsert rec w in
        last_step before i rec rs h.0 (log w) r.0 r.1 h.1 h.2 (logs rec w)
    record_step before i rec rs (err e) w h = (h.0, h.1, Front-append h.0 rs (ok rec ∷ []) h.2)

    prepared-Leaves :
        (i : PrimaryRecordInput Vector) (rec : Meta) (w : World)
        → Leaves
            (log w)
            (directories py writer rec ++ ok rec ∷ [])
            (log (write_prepared py writer i rec w).1)
            (write_prepared py writer i rec w).0
    unfolding write_prepared ensure_parent_records
    prepared-Leaves i rec w =
        let r = put_all py writer (directories py writer rec) w in
        record_step (log w) i rec (directories py writer rec) r.0 r.1
          (put_all-Leaves (directories py writer rec) w)

    -- Where each call of the vector store stores its point or fails and stores nothing, the writer has a
    -- namespace and the record's parent has a path, the points that the write of a prepared record
    -- stores are a directory for each ancestor, from the root down to the parent, with the uris of the
    -- first parts of that path and of their parents, and then the record: all of them if the write
    -- returns, and the first ones if it fails.
    pub write_prepared-Leaves :
        (posix : IsPosix py)
        → writer.has_namespace ≡ true
        → (i : PrimaryRecordInput Vector) (rec : Meta) (ps : List String) (w : World)
        → path py (text_at py "parent_uri" rec) ≡ some ps
        → let parent_uri = text_at py "parent_uri" rec in
          (dirs : List (Result Meta)) × AreDirectories py writer
            (map uri_of (proper_prefixes ps) ++ parent_uri ∷ [])
            dirs
          × Leaves
              (log w)
              (dirs ++ ok rec ∷ [])
              (log (write_prepared py writer i rec w).1)
              (write_prepared py writer i rec w).0
    write_prepared-Leaves posix spaced i rec ps w h = (
      directories py writer rec,
      directories-AreDirectories py writer posix spaced rec ps h,
      prepared-Leaves i rec w,
    )
