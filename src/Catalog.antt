-- ===== src/Catalog.antt =====
-- The catalog of files, packages/index-node/internal/store/catalog.go (and bumpFileGenerationByIDTx
-- of store/directory.go): the statements on the table files. A path_key column is pathKey of the path.
pub mod Rows
pub mod Fence
pub mod Paths
use ferret_new.Base.Pairwise.{update_if}
use ferret_new.Base.{
  any, ℕ, ◌+◌, Bool, true, false, not, ◌&&◌, Option, none, some, List, [], ◌∷◌, ◌++◌, ltb, leb,
  ◌==◌, if◌then◌else◌,
}
use ferret_new.Base.Int.{is_neg}
use ferret_new.Base.Bytes.{Text, text_eq}
use ferret_new.TaskQueue.{
  FileRow, FileKind, invalid_kind, FileStatus, deleted, invalid_status, Result, ok, err, ◌>>=◌,
  ◌>>◌, guard, and_then, path_key, not_found, stale_generation, path_ownership, empty_path,
  negative_size, invalid_generation, bad_kind, bad_status,
}

abbrev is_empty : Text → Bool
is_empty [] = true
is_empty (_ ∷ _) = false

-- SELECT ... FROM files WHERE file_id=?
unfoldable pub file_by_id : ℕ → List FileRow → Option FileRow
file_by_id id [] = none
file_by_id id (f ∷ fs) = if f.id == id then some f else file_by_id id fs

-- SELECT ... FROM files WHERE path_key=?
unfoldable pub file_by_key : Text → List FileRow → Option FileRow
unfolding path_key
file_by_key key [] = none
file_by_key key (f ∷ fs) = if text_eq (path_key f.path) key then some f else file_by_key key fs

-- file_id=? AND generation=?
abbrev pub is_current : ℕ → ℕ → FileRow → Bool
is_current id generation f = f.id == id && f.generation == generation

-- The rows with an id are one row at most.
abbrev pub has_file_id : ℕ → FileRow → Bool
has_file_id id f = f.id == id

abbrev is_valid_kind : FileKind → Bool
is_valid_kind (invalid_kind name) = false
is_valid_kind _ = true

abbrev is_valid_status : FileStatus → Bool
is_valid_status (invalid_status name) = false
is_valid_status _ = true

-- validateFile
unfoldable pub validate_file : FileRow → Result (Unit {0})
validate_file f = do
  guard (not (is_empty f.path)) empty_path
  guard (not (is_neg f.size)) negative_size
  guard (leb 1 f.generation) invalid_generation
  guard (is_valid_kind f.kind) bad_kind
  guard (is_valid_status f.status) bad_status

-- The next rowid.
unfoldable pub next_file_id : List FileRow → ℕ
next_file_id [] = 1
next_file_id (f ∷ fs) = let rest = next_file_id fs in if leb rest f.id then f.id + 1 else rest

-- The statement of UpsertFileTx, from the row that has the path.
unfoldable pub upsert_into :
    FileRow → Option FileRow → List FileRow → Result (List FileRow × FileRow)
unfolding next_file_id
upsert_into file none fs =
    let new = record file { id = next_file_id fs } in ok (fs ++ (new ∷ []), new)
upsert_into file (some f) fs =
    if leb f.generation file.generation
    then (let new = record file { id = f.id } in
        ok (update_if (has_file_id f.id) (λ _. new) fs, new))
    else err stale_generation

-- UpsertFileTx
unfoldable pub upsert_file : FileRow → List FileRow → Result (List FileRow × FileRow)
unfolding validate_file upsert_into file_by_key path_key
upsert_file file fs =
    validate_file file >> upsert_into file (file_by_key (path_key file.path) fs) fs

abbrev pub bumped : FileRow → FileRow
bumped f = record f { generation = f.generation + 1; status = FileStatus.pending }

-- The row that a bump found.
unfoldable pub bump_found : Option FileRow → List FileRow → Result (List FileRow × FileRow)
bump_found none fs = err not_found
bump_found (some f) fs = ok (update_if (has_file_id f.id) bumped fs, bumped f)

-- BumpGenerationTx
unfoldable pub bump_generation : Text → List FileRow → Result (List FileRow × FileRow)
unfolding bump_found file_by_key path_key
bump_generation path fs = bump_found (file_by_key (path_key path) fs) fs

-- bumpFileGenerationByIDTx
unfoldable pub bump_generation_by_id : ℕ → List FileRow → Result (List FileRow × FileRow)
unfolding bump_found file_by_id
bump_generation_by_id id fs = bump_found (file_by_id id fs) fs

abbrev owner_check : ℕ → Option FileRow → Result (Unit {0})
owner_check id none = ok tt
owner_check id (some f) = if f.id == id then ok tt else err path_ownership

-- An update of the current row of an id, with the error for a missing row and for a stale one.
unfoldable pub update_current :
    ℕ → ℕ → (FileRow → FileRow) → Option FileRow → List FileRow → Result (List FileRow × FileRow)
update_current id generation g none fs = err not_found
update_current id generation g (some f) fs =
    if f.generation == generation
    then ok (update_if (is_current id generation) g fs, g f)
    else err stale_generation

-- The columns that prepareAnchoredFileTx sets.
abbrev pub prepared_row : FileRow → FileRow → FileRow
prepared_row file f = record file { id = f.id; generation = f.generation }

-- prepareAnchoredFileTx
unfoldable pub prepare_anchored : ℕ → FileRow → List FileRow → Result (List FileRow × FileRow)
unfolding update_current file_by_key file_by_id path_key
prepare_anchored id file fs = do
  owner_check id (file_by_key (path_key file.path) fs)
  update_current id file.generation (prepared_row file) (file_by_id id fs) fs

-- RelocateFile
unfoldable pub relocate_file : ℕ → ℕ → Text → List FileRow → Result (List FileRow × FileRow)
unfolding update_current file_by_key file_by_id path_key
relocate_file id generation path fs = do
  guard (not (is_empty path)) empty_path
  owner_check id (file_by_key (path_key path) fs)
  update_current id generation (λ f. record f { path = path }) (file_by_id id fs) fs

-- UPDATE files SET ... WHERE file_id=? AND generation=?, where a change of no row is a stale
-- generation.
unfoldable pub set_current : ℕ → ℕ → (FileRow → FileRow) → List FileRow → Result (List FileRow)
set_current id generation g fs =
    if any (is_current id generation) fs
    then ok (update_if (is_current id generation) g fs)
    else err stale_generation

-- MarkFileDeleted
unfoldable pub mark_file_deleted : ℕ → ℕ → List FileRow → Result (List FileRow)
unfolding set_current
mark_file_deleted id generation fs =
    set_current id generation (λ f. record f { status = deleted; indexed_at_ms = none }) fs
