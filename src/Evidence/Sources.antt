-- ===== src/Evidence/Sources.antt =====
-- The sources section of pebs/evidence.py. What Python prints for the identifiers (`json.dumps`, and
-- `str` of the sorted items) and the digests are arguments. `read_text` gives back what
-- `write_text` wrote; it may print a line break otherwise, which `_normalize` does not tell apart.
use pebs.Base.{
  ℕ, ◌+◌, Bool, true, false, ◌&&◌, Option, none, some, List, [], ◌∷◌, ◌++◌, Text, codes, same, ◌==◌,
  if◌then◌else◌, select, max_of, decimal, ref_id, row_for, ok, err, pure, gets, modify, ◌>>=◌, ◌>>◌,
}
use mathlib.Core.Option
use pebs.Store.Rows.{File}
use pebs.Store.Files.{same_path, write_file}
use pebs.Evidence.Whitespace.{normalize, is_inside}
use pebs.Evidence.Rows.{Source, EvidenceStore, source_not_found, integrity_error}
use pebs.Evidence.Claims.{EvidenceExec, slug}

unfoldable pub latest_source : Text → List Source → ℕ
latest_source source_id sources =
    max_of (λ r. r.version) (select (λ r. same r.source_id source_id) sources)

-- The arguments of `add_source`.
pub record NewSource : Type 0 where
  pub source_type : Text
  pub title : Text
  pub identifiers : List (Text × Text)
  pub publish_date : Option Text
  pub content_level : Text
  pub snapshot_text : Option Text
  pub retrieval_note : Text
  pub source_id : Option Text

-- `identifiers.get("doi")`
unfoldable pub doi_of : List (Text × Text) → Option Text
doi_of [] = none
doi_of ((k, v) ∷ rest) = if same k (codes "doi") then some v else doi_of rest

unfoldable pub snapshot_file : Text → ℕ → List Text
snapshot_file source_id version =
    codes "snapshots" ∷ (source_id ++ (codes ".v" ++ (decimal version ++ codes ".txt"))) ∷ []

-- What is computed outside of the store.
pub record Printers : Type 0 where
  pub sha1 : Text → Text
  pub sha256 : Text → Text
  pub dumps : List (Text × Text) → Text
  pub show_sorted : List (Text × Text) → Text

unfoldable pub chosen_source_id : Printers → NewSource → Text
chosen_source_id p new = elim new.source_id [
  | some id ↦ id
  | none ↦ elim (doi_of new.identifiers) [
    | some (c ∷ cs) ↦ codes "src_doi_" ++ slug p.sha1 (c ∷ cs)
    | _ ↦ codes "src_" ++ slug p.sha1 (new.title ++ p.show_sorted new.identifiers)
  ]
]

abbrev pub is_undated : Option Text → Bool
is_undated (some (c ∷ cs)) = false
is_undated _ = true

abbrev pub source_row : Printers → ℕ → NewSource → EvidenceStore → Source
source_row p now new s =
    let source_id = chosen_source_id p new in
    let version = latest_source source_id s.sources + 1 in
    record {
      revision_id = ref_id b'v' source_id version;
      source_id = source_id;
      project_id = s.project_id;
      version = version;
      source_type = new.source_type;
      title = new.title;
      identifiers = p.dumps new.identifiers;
      publish_date = new.publish_date;
      publish_date_unknown = is_undated new.publish_date;
      fetched_at = now;
      content_level = new.content_level;
      snapshot_path = Option.map (λ text. snapshot_file source_id version) new.snapshot_text;
      sha256 = Option.map p.sha256 new.snapshot_text;
      retrieval_note = new.retrieval_note;
    }

unfoldable pub write_snapshot : Source → Option Text → EvidenceStore → EvidenceStore
write_snapshot row none s = s
write_snapshot row (some text) s = record s {
  files = write_file (snapshot_file row.source_id row.version) text s.files;
}

-- INSERT INTO sources, which fails where the primary key is taken
unfoldable pub insert_source : Source → EvidenceExec Unit
insert_source r s = elim (row_for (λ q. q.revision_id) r.revision_id s.sources) [
  | some old ↦ (err (integrity_error r.revision_id), s)
  | none ↦ (ok tt, record s { sources = s.sources ++ r ∷ [] })
]

unfoldable pub add_source : Printers → ℕ → NewSource → EvidenceExec Source
add_source p now new = do
  row ← gets (source_row p now new)
  modify (write_snapshot row new.snapshot_text)
  insert_source row
  pure row

unfoldable pub find_source : Text → ℕ → List Source → Option Source
find_source source_id version [] = none
find_source source_id version (r ∷ rs) =
    if same r.source_id source_id && r.version == version
    then some r
    else find_source source_id version rs

abbrev pub source_version_or_latest : Text → Option ℕ → EvidenceStore → ℕ
source_version_or_latest source_id none s = latest_source source_id s.sources
source_version_or_latest source_id (some v) s = v

unfoldable pub get_source : Text → Option ℕ → EvidenceExec Source
get_source source_id version s =
    let v = source_version_or_latest source_id version s in
    elim (find_source source_id v s.sources) [
      | none ↦ (err (source_not_found source_id v), s)
      | some r ↦ (ok r, s)
    ]

unfoldable pub read_file : List Text → List File → Option Text
read_file path [] = none
read_file path ((p, text) ∷ files) = if same_path p path then some text else read_file path files

unfoldable pub source_text : Text → EvidenceStore → Option Text
source_text source_rev s = elim (row_for (λ r. r.revision_id) source_rev s.sources) [
  | none ↦ none
  | some r ↦ elim r.snapshot_path [ none ↦ none | some path ↦ read_file path s.files ]
]

unfoldable pub quote_present : Text → Text → EvidenceStore → Bool
quote_present source_rev quote s = elim (source_text source_rev s) [
  | none ↦ false
  | some text ↦ is_inside (normalize quote) (normalize text)
]
