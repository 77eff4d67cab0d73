-- ===== src/Store/Files.antt =====
-- `materialize` of pebs/store.py: the accepted content of a revision as a file under `base_dir`.
use pebs.Base.{
  ℕ, Bool, true, false, ◌&&◌, ◌||◌, List, [], ◌∷◌, ◌++◌, Text, codes, leb, ◌==◌, if◌then◌else◌, map,
  decimal, same, pure, modify, ◌>>=◌, ◌>>◌,
}
use pebs.Store.Rows.{Revision, File}
use pebs.Store.Artifacts.{StoreExec, get_revision}

-- [A-Za-z0-9_.\-\u4e00-\u9fff]
unfoldable pub is_safe : ℕ → Bool
is_safe c =
    (leb b'A' c && leb c b'Z')
    || (leb b'a' c && leb c b'z')
    || (leb b'0' c && leb c b'9')
    || c == b'_'
    || c == b'.'
    || c == b'-'
    || (leb 0x4e00 c && leb c 0x9fff)

unfoldable pub safe_id : Text → Text
unfolding is_safe
safe_id artifact_id = map (λ c. if is_safe c then c else b'_') artifact_id

unfoldable pub file_path : Revision → List Text
unfolding safe_id
file_path rev =
    codes "artifacts"
    ∷ rev.artifact_type
    ∷ (safe_id rev.artifact_id ++ (codes ".r" ++ (decimal rev.version ++ codes ".json")))
    ∷ []

abbrev pub same_path : List Text → List Text → Bool
same_path [] [] = true
same_path (a ∷ as') (b ∷ bs) = same a b && same_path as' bs
same_path _ _ = false

-- `write_text`: the old text of the path is gone.
unfoldable pub write_file : List Text → Text → List File → List File
write_file path text [] = (path, text) ∷ []
write_file path text ((p, t) ∷ files) =
    let rest = write_file path text files in
    if same_path p path then (path, text) ∷ files else (p, t) ∷ rest

unfoldable pub materialize : Text → StoreExec (List Text)
materialize revision_id = do
  rev ← get_revision revision_id
  modify (λ s. record s { files = write_file (file_path rev) rev.content s.files })
  pure (file_path rev)
