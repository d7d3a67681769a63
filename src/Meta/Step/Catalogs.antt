-- ===== src/Meta/Step/Catalogs.antt =====
-- The search-catalog commands write what the relation allows.
use dal_service.Prelude.{
  ℕ, ◌≡◌, inl, inr, refl, Bool, Option, ap, ◌∙◌, find, All, keep, ◌++◌, list_beq_iff, Option-cases,
  none, some, List, [], ◌∷◌, arith, nat_eq, list_eq, option_eq,
}
use dal_service.Codec.{ok, >>=-eq-ok}
use dal_service.Types.{LogId}
use dal_service.Search.Definition.{
  Text, Hashing, SearchIndexDefinition, SearchIndexGeneration, SearchIndexRecord, SearchIndexReady,
}
use dal_service.Meta.Store.{MetaStore, MetaMutation, ReadyKey, Outcome, unchanged}
use dal_service.Meta.Catalog.{
  has_name, of_generation, deletions, search_index, commit_record, build_in, build_for,
  create_named, create_search_index, report_after, report_placed, report_partition, report_building,
  report_search_ready,
}
use dal_service.Meta.Catalog.Lifecycle.{
  finalize_in, switch, activate_building, activate_in, activate_search_generation, drop_in,
  drop_search_index, finalize_search_drop, retire_all, to_list, building_readiness,
}
use dal_service.Meta.Step.{Allowed, IsCataloged, Succeeds, indexed}

deletions-All :
    (s : MetaStore) (readiness : List (ReadyKey × SearchIndexReady))
    → All (IsCataloged s) (deletions readiness)
deletions-All s [] = tt
deletions-All s (e ∷ readiness) = (tt, deletions-All s readiness)

-- An outcome that the catalog allows.
abbrev OnCatalog : MetaStore → Outcome → Type 0
OnCatalog s o = All (IsCataloged s) o.1

pub Allowed-of_search :
    (s : MetaStore) (l : LogId) (ms : List MetaMutation) → All (IsCataloged s) ms → Allowed s l ms
Allowed-of_search s l [] h = tt
Allowed-of_search s l (MetaMutation.put_search_index r ∷ ms) h = h
Allowed-of_search s l (MetaMutation.delete_search_index n ∷ ms) h = h
Allowed-of_search s l (MetaMutation.put_search_ready k r ∷ ms) h = h
Allowed-of_search s l (MetaMutation.delete_search_ready k ∷ ms) h = h
Allowed-of_search s l (m ∷ ms) h = absurd (ground arith)

find_name :
    (name : Text) (rs : List SearchIndexRecord) {r : SearchIndexRecord}
    → find (has_name name) rs ≡ some r
    → r.name ≡ name
find_name name [] h = absurd (ground arith)
find_name name (x ∷ xs) {r} h = ground (arith, list_beq_iff x.name name, find_name name xs {r = r})

module _ (h : Hashing) (s : MetaStore) where
  search_index-indexed :
      (name : Text) (o : Option SearchIndexRecord)
      → search_index h s name ≡ ok o
      → indexed s name ≡ o
  unfolding search_index
  search_index-indexed name o e = ground arith

  -- A record is found under its own name.
  indexed_self :
      (name : Text) {r : SearchIndexRecord} → indexed s name ≡ some r → indexed s r.name ≡ some r
  indexed_self name held = ap (indexed s) (find_name name s.search_indexes held) ∙ held

  commit-OnCatalog :
      (r : SearchIndexRecord) (readiness : List (ReadyKey × SearchIndexReady))
      → Succeeds r (indexed s r.name)
      → OnCatalog s (commit_record h r (deletions readiness))
  unfolding commit_record
  commit-OnCatalog r readiness k = ground (arith, deletions-All s readiness)

  build_in-OnCatalog :
      (r : SearchIndexRecord) (g : SearchIndexGeneration) (update : Bool)
      → (r.building ≡ none → Succeeds (record r { building = some g }) (indexed s r.name))
      → OnCatalog s (build_in h r g update)
  unfolding build_in
  build_in-OnCatalog r g update k =
      ground (arith, commit-OnCatalog (record r { building = some g }) [])

  build_for-OnCatalog :
      (name : Text) (g : SearchIndexGeneration) (update : Bool) (o : Option SearchIndexRecord)
      → indexed s name ≡ o
      → OnCatalog s (build_for h s name g update o)
  unfolding build_for
  build_for-OnCatalog name g update none fresh =
      let r : SearchIndexRecord = record {
        name = name;
        active = none;
        building = none;
        retiring = [];
      } in
      ground (arith, build_in-OnCatalog r g update (λ e. rw fresh (refl, refl)))
  build_for-OnCatalog name g update (some r) held = ground (
    arith,
    build_in-OnCatalog r g update (λ e. rw (indexed_self name held) (inl refl, inr (inr e))),
  )

  pub create-OnCatalog :
      (name : Text) (d : SearchIndexDefinition) (revision : ℕ) (l : LogId) (update : Bool)
      {o : Outcome}
      → create_search_index h s name d revision l update ≡ ok o
      → All (IsCataloged s) o.1
  unfolding create_search_index create_named
  create-OnCatalog name d revision l update e =
      grind (arith, build_for-OnCatalog name, search_index-indexed name)

  report_building-OnCatalog :
      (name : Text) (observation : SearchIndexReady) (o : Option SearchIndexRecord)
      → indexed s name ≡ o
      → OnCatalog s (report_building h s name observation o)
  unfolding report_building report_partition report_placed report_after
  report_building-OnCatalog name ready none fresh = ground arith
  report_building-OnCatalog name ready (some r) held = elim (Option-cases r.building) [
    | inl missing ↦ ground arith
    | inr (b, built) ↦ ground (arith, list_beq_iff ready.definition_hash b.definition_hash)
  ]

  pub report-OnCatalog :
      (name : Text) (observation : SearchIndexReady) {o : Outcome}
      → report_search_ready h s name observation ≡ ok o
      → All (IsCataloged s) o.1
  unfolding report_search_ready
  report-OnCatalog name observation e =
      let (r, read, made) = >>=-eq-ok (search_index h s name) _ e in
      ground
        (arith, report_building-OnCatalog name observation r (search_index-indexed name r read))

  module _ (name : Text) (r : SearchIndexRecord) (held : indexed s name ≡ some r) where
    switch-OnCatalog :
        (b : SearchIndexGeneration) (readiness : List (ReadyKey × SearchIndexReady))
        → r.building ≡ some b
        → OnCatalog s (switch h r b readiness)
    unfolding switch
    switch-OnCatalog b readiness built = ground (
      arith,
      commit-OnCatalog
          (record r {
            active = some b;
            building = none;
            retiring = retire_all (to_list r.active) r.retiring;
          })
          readiness,
      indexed_self name held,
    )

    activate_in-OnCatalog :
        (generation : ℕ) → OnCatalog s (activate_in h s name generation (some r))
    unfolding activate_in activate_building
    activate_in-OnCatalog generation = elim (Option-cases r.building) [
      | inl missing ↦ ground arith
      | inr (b, built) ↦
          ground
            (arith, switch-OnCatalog b (keep (of_generation name generation) s.search_ready) built)
    ]

    drop_in-OnCatalog : OnCatalog s (drop_in h s name (some r))
    unfolding drop_in
    drop_in-OnCatalog =
        let retiring = to_list r.active ++ to_list r.building in
        ground (
          arith,
          commit-OnCatalog
              (record r {
                active = none;
                building = none;
                retiring = retire_all retiring r.retiring;
              })
              (building_readiness name r.building s.search_ready),
          indexed_self name held,
        )

    finalize_in-OnCatalog : (generation : ℕ) → OnCatalog s (finalize_in r generation)
    unfolding finalize_in
    finalize_in-OnCatalog generation = ground (arith, indexed_self name held)

  pub activate-OnCatalog :
      (name : Text) (generation : ℕ) {o : Outcome}
      → activate_search_generation h s name generation ≡ ok o
      → All (IsCataloged s) o.1
  unfolding activate_search_generation
  activate-OnCatalog name generation e =
      let (r, read, made) = >>=-eq-ok (search_index h s name) _ e in
      by_record r made (search_index-indexed name r read)
    where
      by_record :
          (r : Option SearchIndexRecord) {o : Outcome}
          → ok (activate_in h s name generation r) ≡ ok o
          → indexed s name ≡ r
          → All (IsCataloged s) o.1
      by_record none made held = unfold activate_in in ground arith
      by_record (some r) made held = ground (arith, activate_in-OnCatalog name r held generation)

  pub drop-OnCatalog :
      (name : Text) {o : Outcome} → drop_search_index h s name ≡ ok o → All (IsCataloged s) o.1
  unfolding drop_search_index
  drop-OnCatalog name e =
      let (r, read, made) = >>=-eq-ok (search_index h s name) _ e in
      by_record r made (search_index-indexed name r read)
    where
      by_record :
          (r : Option SearchIndexRecord) {o : Outcome}
          → ok (drop_in h s name r) ≡ ok o
          → indexed s name ≡ r
          → All (IsCataloged s) o.1
      by_record none made held = unfold drop_in in ground arith
      by_record (some r) made held = ground (arith, drop_in-OnCatalog name r held)

  pub finalize-OnCatalog :
      (name : Text) (generation : ℕ) {o : Outcome}
      → finalize_search_drop h s name generation ≡ ok o
      → All (IsCataloged s) o.1
  unfolding finalize_search_drop
  finalize-OnCatalog name generation e =
      let (r, read, made) = >>=-eq-ok (search_index h s name) _ e in
      by_record r made (search_index-indexed name r read)
    where
      by_record :
          (r : Option SearchIndexRecord) {o : Outcome}
          → elim r [ none ↦ ok unchanged | some found ↦ ok (finalize_in found generation) ] ≡ ok o
          → indexed s name ≡ r
          → All (IsCataloged s) o.1
      by_record none made held = ground arith
      by_record (some r) made held = ground (arith, finalize_in-OnCatalog name r held generation)
