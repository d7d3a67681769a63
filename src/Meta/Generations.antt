-- ===== src/Meta/Generations.antt =====
-- How the generations of a search index may follow one another (src/meta/state_machine.rs), as a
-- predicate on the mutations of the catalog.
use dal_service.Prelude.{◌≡◌, ◌⊎◌, Option, none, some, [], find, ◌==◌, nat_eq, list_eq}
use dal_service.Search.Definition.{Text, SearchIndexGeneration, SearchIndexRecord, SearchIndexReady}
use dal_service.Meta.Store.{
  MetaStore, MetaMutation, ReadyKey, put_search_index, delete_search_index, put_search_ready,
  delete_search_ready,
}

-- The catalog record of a name.
abbrev pub indexed : MetaStore → Text → Option SearchIndexRecord
indexed s name = find (λ r. r.name == name) s.search_indexes

-- A catalog record written over that of its name: a new one has nothing active or retiring; a
-- generation is active after it was built, and another is built where none was.
abbrev pub Succeeds : SearchIndexRecord → Option SearchIndexRecord → Type 0
Succeeds r none = (r.active ≡ none) × (r.retiring ≡ [])
Succeeds r (some old) =
    ((r.active ≡ old.active) ⊎ (r.active ≡ none) ⊎ (r.active ≡ old.building))
    × ((r.building ≡ old.building) ⊎ (r.building ≡ none) ⊎ (old.building ≡ none))

-- A record that is deleted has no generation active or being built.
abbrev pub IsSpent : Option SearchIndexRecord → Type 0
IsSpent none = ⊥
IsSpent (some r) = (r.active ≡ none) × (r.building ≡ none)

-- A replica is ready for the generation that is being built.
abbrev pub IsOfBuild : ReadyKey → SearchIndexReady → Option SearchIndexGeneration → Type 0
IsOfBuild key ready none = ⊥
IsOfBuild key ready (some b) =
    (key.generation ≡ b.id)
    × (ready.generation ≡ b.id)
    × (ready.definition_hash ≡ b.definition_hash)
    × (ready.engine_revision ≡ b.engine_revision)

abbrev pub IsReadyFor : ReadyKey → SearchIndexReady → Option SearchIndexRecord → Type 0
IsReadyFor key ready none = ⊥
IsReadyFor key ready (some r) = IsOfBuild key ready r.building

abbrev pub IsCataloged : MetaStore → MetaMutation → Type 0
IsCataloged s (put_search_index r) = Succeeds r (indexed s r.name)
IsCataloged s (delete_search_index name) = IsSpent (indexed s name)
IsCataloged s (put_search_ready key ready) = IsReadyFor key ready (indexed s key.name)
IsCataloged s (delete_search_ready key) = Unit
IsCataloged s _ = ⊥
