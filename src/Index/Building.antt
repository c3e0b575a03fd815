-- ===== src/Index/Building.antt =====
-- The payload of a node of a tree, and `ReasonTreeBuildWriter.write`.
use open_cortex.Base.{
  String, Bool, true, false, not, List, [], ◌∷◌, ◌++◌, map, if◌then◌else◌, ◌==◌, string_eq, none,
  some,
}
use open_cortex.Base.Json.{
  Json, num, str, bool, arr, obj, to_items, to_fields, texts, truthy, text_or_empty, text_at, at,
  update, Meta, Python, join,
}
use open_cortex.Base.Dict
use open_cortex.Forget.{Call, return, ◌>>=◌}
use open_cortex.Records.Events.{MemoryEvent}
use open_cortex.Index.Payload.{
  primary_record, event_uri, event_record_id, event_content, list_at, dict_at, unique_strings,
  source_references,
}
use open_cortex.Index.Points.{reason_tree_payload, Indexing, Complaints, all_ok, lift, index_all}
use open_cortex.Index.Writing.{event_profile}
use open_cortex.Index.Tree.{
  ReasonTreeNode, tree_node, leaf, grow, ReasonTreeOutput, TreeNodeIndexRecord, should_build,
  reason_role, tree_records,
}

abbrev node_title : ReasonTreeNode → String
node_title (tree_node title summary facts refs children) = title

abbrev node_summary : ReasonTreeNode → String
node_summary (tree_node title summary facts refs children) = summary

abbrev node_facts : ReasonTreeNode → List String
node_facts (tree_node title summary facts refs children) = facts

abbrev node_refs : ReasonTreeNode → List String
node_refs (tree_node title summary facts refs children) = refs

unfoldable pub has_branches : ReasonTreeNode → Bool
has_branches (tree_node title summary facts refs leaf) = false
has_branches (tree_node title summary facts refs (grow n ns)) = true

-- `build` is `build_tree`: the prompt, the language model's answer and its validation.
pub record TreeBuilding (World Vector : Type 0) : Type 0 where
  pub build : MemoryEvent → Meta → String → Call World ReasonTreeOutput
  pub indexing : Indexing World Vector

abbrev pub tree_complaints : Complaints
tree_complaints = record {
  no_embedder = "ReasonTreeBuildWriter requires an embedder";
  unembedded = "Reason-tree build embedding returned no dense vector";
}

module _ (py : Python) (sha1 : String → String) (temporal : List Json → Meta) where
  -- `str(record.get(key, default) or "")`
  abbrev text_or : String → String → Meta → Json
  text_or key default rec =
      str (elim (Dict.get key rec) [ none ↦ default | some v ↦ text_or_empty py v ])

  abbrev shared_text : String → Meta → String × Json
  shared_text key rec = (key, str (text_at py key rec))

  -- The fields that describe the node's place in the tree.
  unfoldable pub place_fields : MemoryEvent → Meta → TreeNodeIndexRecord → Meta
  unfolding event_uri event_record_id reason_role has_branches
  place_fields e rec r =
      ("id", str r.uri)
      ∷ ("uri", str r.uri)
      ∷ ("parent_uri", str r.parent_uri)
      ∷ ("source_uri", str (event_uri e))
      ∷ ("source_record_id", str (event_record_id py e))
      ∷ ("parent_source_uri", str (text_at py "parent_uri" rec))
      ∷ ("tree_uri", str (event_uri e))
      ∷ ("path", str (join "/" r.path_segments))
      ∷ ("path_segments", texts r.path_segments)
      ∷ ("level", num r.level)
      ∷ ("reason_role", str (reason_role py rec))
      ∷ ("context_window", str (if has_branches r.node then "children" else "self"))
      ∷ ("is_leaf", bool (not (has_branches r.node)))
      ∷ []

  -- The fields that a node takes from its record.
  unfoldable pub owner_fields : MemoryEvent → Meta → Meta
  unfolding event_profile
  owner_fields e rec =
      let profile = event_profile e in
      shared_text "context_type" rec
      ∷ shared_text "category" rec
      ∷ ("source_tenant_id", text_or "source_tenant_id" profile.tenant_id rec)
      ∷ ("source_user_id", text_or "source_user_id" profile.user_id rec)
      ∷ ("project_id", text_or "project_id" profile.project_id rec)
      ∷ shared_text "scope" rec
      ∷ ("session_id", text_or "session_id" profile.session_id rec)
      ∷ ("entities", arr (to_items (list_at "entities" rec)))
      ∷ shared_text "keywords" rec
      ∷ shared_text "memory_kind" rec
      ∷ ("retrieval_surface", str "reason_tree_index")
      ∷ ("retrieval_ready", bool true)
      ∷ []

  unfoldable pub index_payload : MemoryEvent → Meta → ReasonTreeOutput → TreeNodeIndexRecord → Meta
  unfolding place_fields owner_fields unique_strings source_references update event_uri
      event_record_id
  index_payload e rec output r =
      let meta = dict_at "meta" rec in
      let source_uris = list_at "source_uris" meta in
      let merged_uris = list_at "merged_uris" meta in
      let refs = source_references py rec meta source_uris merged_uris in
      let source_refs = unique_strings py (map str (node_refs r.node ++ refs)) in
      let fact_points = unique_strings py (map str (node_facts r.node)) in
      let told =
        ("title", str (node_title r.node))
        ∷ ("summary", str (node_summary r.node))
        ∷ ("fact_points", texts fact_points)
        ∷ ("source_refs", texts source_refs)
        ∷ [] in
      let dates = temporal (
        at "event_ts" rec
        ∷ at "event_date" rec
        ∷ at "utterance_ts" rec
        ∷ at "date_range_start" rec
        ∷ at "date_range_end" rec
        ∷ at "time_refs" rec
        ∷ str (node_summary r.node)
        ∷ texts fact_points
        ∷ []) in
      let named =
        ("index_name", str "ReasonTreeBuild")
        ∷ ("source_uri", str (event_uri e))
        ∷ ("source_record_id", str (event_record_id py e))
        ∷ ("tree_uri", str (event_uri e))
        ∷ told in
      let neighbors = at "parent_uri" rec ∷ source_uris ++ merged_uris in
      update dates (
        place_fields e rec r
        ++ owner_fields e rec
        ++ told
        ++ ("source_uris", arr (to_items source_uris))
          ∷ ("merged_uris", arr (to_items merged_uris))
          ∷ ("abstract", str output.abstract)
          ∷ ("overview", str output.overview)
          ∷ ("cone_neighbors", texts (unique_strings py neighbors))
          ∷ ("meta", obj (to_fields (update named meta)))
          ∷ [])

  abbrev pub tree_text : Meta → String
  tree_text payload =
      if truthy (at "summary" payload)
      then text_at py "summary" payload
      else text_at py "overview" payload

  unfoldable pub index_tree :
      {World Vector : Type 0}
      → TreeBuilding World Vector
      → MemoryEvent
      → ReasonTreeOutput
      → Call World (Unit {0})
  unfolding index_all all_ok tree_records index_payload event_uri primary_record
  index_tree services e output =
      lift (
        all_ok (
          map
            (λ r.
              services.indexing.make reason_tree_payload
                (index_payload e (primary_record e) output r))
            (tree_records py sha1 (event_uri e) output.nodes)))
      >>= index_all services.indexing tree_complaints tree_text

  unfoldable pub build_write :
      {World Vector : Type 0} → TreeBuilding World Vector → MemoryEvent → Call World (Unit {0})
  unfolding primary_record should_build index_tree event_content
  build_write services e =
      let rec = primary_record e in
      let content =
        if truthy (at "content" rec) then py.show (at "content" rec) else event_content e in
      if not (should_build py rec)
      then return tt
      else if content == ""
      then return tt
      else services.build e rec content >>= index_tree services e
