-- ===== src/Search/Definition.antt =====
-- Search index definitions and catalog records of src/search/definition.rs, with their validation.
-- A text is its code points. Values that the source puts into an error's message are left out.
use Prim.Native.String.{String}
use dal_service.Prelude.{
  ℕ, ◌+◌, ◌*◌, ◌/◌, ◌%◌, Bool, true, false, not, ◌&&◌, ◌||◌, Option, none, some, List, [], ◌∷◌,
  ◌++◌, ltb, leb, ◌==◌, nat_eq, list_eq, length, is_empty, all, any, find, contains, if◌then◌else◌,
}
use dal_service.Codec.{Bytes, Error, Result, ok, err, ◌>>=◌}
use dal_service.Types.{GroupId, LogId, NodeId}

abbrev pub Text : Type 0
Text = List ℕ

-- The UTF-8 bytes of a code point.
unfoldable pub utf8 : ℕ → Bytes
utf8 ch =
    if ltb ch 0x80
    then ch ∷ []
    else if ltb ch 0x800
    then (0xc0 + ch / 0x40) ∷ (0x80 + ch % 0x40) ∷ []
    else if ltb ch 0x10000
    then (0xe0 + ch / 0x1000) ∷ (0x80 + ch / 0x40 % 0x40) ∷ (0x80 + ch % 0x40) ∷ []
    else (0xf0 + ch / 0x40000)
      ∷ (0x80 + ch / 0x1000 % 0x40)
      ∷ (0x80 + ch / 0x40 % 0x40)
      ∷ (0x80 + ch % 0x40)
      ∷ []

unfoldable pub bytes : Text → Bytes
bytes [] = []
bytes (ch ∷ text) = utf8 ch ++ bytes text

abbrev pub search_max_fields : ℕ
search_max_fields = 64

abbrev pub search_max_name_bytes : ℕ
search_max_name_bytes = 128

abbrev pub search_max_path_segments : ℕ
search_max_path_segments = 16

abbrev pub search_max_definition_bytes : ℕ
search_max_definition_bytes = 64 * 1024

abbrev pub search_max_indexes : ℕ
search_max_indexes = 64

abbrev pub search_max_catalog_bytes : ℕ
search_max_catalog_bytes = 256 * 1024

abbrev pub search_max_retiring_generations : ℕ
search_max_retiring_generations = 4096

pub data PathSegment : Type 0 where
  key : Text → PathSegment
  index : ℕ → PathSegment

pub data FieldKind : Type 0 where
  text : Text → Bool → FieldKind
  keyword u64 i64 f64 bool date facet : FieldKind

pub record SearchField : Type 0 where
  pub name : Text
  pub source_path : List PathSegment
  pub kind : FieldKind
  pub required : Bool
  pub multi_valued : Bool
  pub indexed : Bool
  pub stored : Bool
  pub fast : Bool

pub record SearchIndexDefinition : Type 0 where
  pub document_type : Text
  pub fields : List SearchField
  pub default_search_fields : List Text

pub record SearchIndexGeneration : Type 0 where
  pub id : ℕ
  pub definition_hash : Bytes
  pub engine_revision : ℕ
  pub definition : SearchIndexDefinition

pub record SearchIndexRecord : Type 0 where
  pub name : Text
  pub active : Option SearchIndexGeneration
  pub building : Option SearchIndexGeneration
  pub retiring : List ℕ

pub record SearchIndexReady : Type 0 where
  pub generation : ℕ
  pub definition_hash : Bytes
  pub engine_revision : ℕ
  pub group : GroupId
  pub node_id : NodeId
  pub voters_log_id : LogId
  pub projection_epoch : ℕ
  pub source_log_id : LogId

abbrev pub ensure : Bool → String → Result (Unit {0})
ensure true message = ok tt
ensure false message = err (Error.search message)

infixl 5 ◌>>◌
abbrev pub ◌>>◌ {ℓ} : {B : Type ℓ} → Result (Unit {0}) → Result B → Result B
m >> k = m >>= λ _. k

-- `char::is_control`.
unfoldable pub is_control : ℕ → Bool
is_control ch = ltb ch 0x20 || (leb 0x7f ch && leb ch 0x9f)

unfoldable pub validate_name : Text → Result (Unit {0})
validate_name name = do
  ensure (not (is_empty name || ltb search_max_name_bytes (length (bytes name)))) "name length"
  ensure (not (any is_control name)) "name contains a control character"

-- `byte.is_ascii_alphanumeric() || matches!(byte, b'-' | b'_' | b'.')`.
unfoldable pub is_index_name_byte : ℕ → Bool
is_index_name_byte b =
    (leb b'0' b && leb b b'9')
    || (leb b'A' b && leb b b'Z')
    || (leb b'a' b && leb b b'z')
    || b == b'-'
    || b == b'_'
    || b == b'.'

unfoldable pub validate_index_name : Text → Result (Unit {0})
validate_index_name name = do
  validate_name name
  ensure (all is_index_name_byte (bytes name))
      "index name may contain only ASCII letters, digits, '-', '_', and '.'"
  ensure (not (all (λ b. b == b'.') (bytes name)))
      "index name may not consist only of '.' characters"

unfoldable pub is_text : FieldKind → Bool
is_text (text tokenizer positions) = true
is_text kind = false

unfoldable pub is_facet : FieldKind → Bool
is_facet facet = true
is_facet kind = false

unfoldable pub is_keyword : FieldKind → Bool
is_keyword keyword = true
is_keyword kind = false

unfoldable pub starts_with_underscore : Text → Bool
starts_with_underscore [] = false
starts_with_underscore (ch ∷ rest) = ch == b'_'

unfoldable pub validate_segment : PathSegment → Result (Unit {0})
validate_segment (key k) = validate_name k
validate_segment (index i) = ok tt

unfoldable pub validate_path : List PathSegment → Result (Unit {0})
validate_path [] = ok tt
validate_path (s ∷ path) = do validate_segment s; validate_path path

module _ (tokenizers : List Text) where
  -- The last test of a field: the tokenizer of a text field.
  unfoldable pub validate_tokenizer : FieldKind → Result (Unit {0})
  validate_tokenizer (text tokenizer positions) = do
    validate_name tokenizer
    ensure (contains tokenizers tokenizer) "unsupported tokenizer"
  validate_tokenizer kind = ok tt

  unfoldable pub validate_field : List Text → SearchField → Result (Unit {0})
  validate_field seen field = do
    validate_name field.name
    ensure (not (starts_with_underscore field.name)) "field name is reserved"
    ensure (not (contains seen field.name)) "duplicate field name"
    ensure
        (not
          (is_empty field.source_path || ltb search_max_path_segments (length field.source_path)))
        "path length"
    validate_path field.source_path
    ensure (field.indexed || field.stored || field.fast) "no index, store, or fast option"
    ensure (not (field.fast && is_text field.kind)) "text field cannot be fast"
    ensure (not (is_facet field.kind && (not field.indexed || not field.fast)))
        "facet field must be indexed and fast"
    validate_tokenizer field.kind

  -- The loop over the fields, with the names seen so far.
  unfoldable pub validate_fields : List Text → List SearchField → Result (Unit {0})
  validate_fields seen [] = ok tt
  validate_fields seen (field ∷ fields) = do
    validate_field seen field
    validate_fields (field.name ∷ seen) fields

unfoldable pub validate_default : List SearchField → Text → Result (Unit {0})
validate_default fields name = elim (find (λ f. f.name == name) fields) [
  | none ↦ err (Error.search "unknown default search field")
  | some field ↦
      ensure (field.indexed && (is_text field.kind || is_keyword field.kind))
        "default search field must be indexed text or keyword"
]

unfoldable pub validate_defaults : List SearchField → List Text → List Text → Result (Unit {0})
validate_defaults fields seen [] = ok tt
validate_defaults fields seen (name ∷ names) = do
  ensure (not (contains seen name)) "duplicate default search field"
  validate_default fields name
  validate_defaults fields (name ∷ seen) names

abbrev pub codes : String → Text
codes String.[] = []
codes (String.◌∷◌ ch s) = Prim.Native.Char.code ch ∷ codes s

abbrev pub supported_tokenizers : List Text
supported_tokenizers = codes "default" ∷ codes "raw" ∷ codes "en_stem" ∷ codes "whitespace" ∷ []

-- bincode and SHA-256, which the definitions' hashes and sizes come from.
pub record Hashing : Type 0 where
  pub definitions : SearchIndexDefinition → Bytes
  pub records : SearchIndexRecord → Bytes
  pub sha256 : Bytes → Bytes

module _ (h : Hashing) where
  -- `SearchIndexDefinition::validate`.
  unfoldable pub validate_definition : SearchIndexDefinition → Result (Unit {0})
  validate_definition d = do
    validate_name d.document_type
    ensure (not (is_empty d.fields || ltb search_max_fields (length d.fields))) "field count"
    validate_fields supported_tokenizers [] d.fields
    validate_defaults d.fields [] d.default_search_fields
    ensure (leb (length (h.definitions d)) search_max_definition_bytes) "definition size"

  unfoldable pub definition_hash : SearchIndexDefinition → Result Bytes
  definition_hash d = do validate_definition d; ok (h.sha256 (h.definitions d))

  unfoldable pub with_revision : ℕ → ℕ → SearchIndexDefinition → Result SearchIndexGeneration
  with_revision id engine_revision definition = do
    ensure (not (id == 0)) "index generation must be non-zero"
    ensure (not (engine_revision == 0)) "index engine revision must be non-zero"
    hash ← definition_hash definition
    ok (record {
      id = id;
      definition_hash = hash;
      engine_revision = engine_revision;
      definition = definition;
    })

  unfoldable pub validate_integrity : SearchIndexGeneration → Result (Unit {0})
  validate_integrity g = do
    ensure (not (g.id == 0)) "index generation must be non-zero"
    ensure (not (g.engine_revision == 0)) "index engine revision must be non-zero"
    hash ← definition_hash g.definition
    ensure (g.definition_hash == hash) "index definition hash mismatch"

  unfoldable pub validate_generation : Option SearchIndexGeneration → Result (Unit {0})
  validate_generation none = ok tt
  validate_generation (some g) = validate_integrity g

  -- `SearchIndexRecord::validate`.
  unfoldable pub validate_record : SearchIndexRecord → Result (Unit {0})
  validate_record r = do
    validate_index_name r.name
    ensure (leb (length r.retiring) search_max_retiring_generations) "retiring generations"
    validate_generation r.active
    validate_generation r.building
    ensure (leb (length (h.records r)) search_max_catalog_bytes) "record size"
