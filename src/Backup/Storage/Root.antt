-- ===== src/Backup/Storage/Root.antt =====
-- Where a storage keeps its files (NewFilesystemStorage, SanitizePath and the directories in
-- internal/backup/storage.go). `absolute` stands for filepath.Abs; a type of configuration is one of
-- the two, so the error for another one is left out.
use claude_hooks.Common.{
  ◌≡◌, refl, ap, ◌∙◌, ◌==◌, if_true, if_false, arith, Bool-cases, inl, inr, false, List, [], ◌∷◌,
  Option, if◌then◌else◌, get_or, map, select, not, ℕ,
}
use claude_hooks.Common.Text.{Text, codes, is_empty, join, contains_byte}
use claude_hooks.Common.Paths.{clean}
use claude_hooks.Common.Result.{Result, ok, err}
use claude_hooks.Backup.{ConfigType, global_type, project_type}

pub record FilesystemStorage : Type 0 where
  pub base_dir : Text
  pub storage_config_type : ConfigType
  pub project_path : Text

pub data StorageError : Type 0 where
  base_dir_empty project_path_required : StorageError

-- `filepath.Join`.
abbrev pub join_parts : List Text → Text
join_parts [] = []
join_parts (p ∷ ps) = clean (join (codes "/") (p ∷ ps))

unfoldable pub join_paths : List Text → Text
unfolding clean join
join_paths ps = join_parts (select (λ p. not (is_empty p)) ps)

abbrev pub without_slash : Text → Text
without_slash [] = []
without_slash (c ∷ s) = if c == b'/' then s else c ∷ s

abbrev pub underscore : ℕ → ℕ
underscore c = if c == b'/' then b'_' else c

module _ (absolute : Text → Option Text) where
  unfoldable pub sanitize_path : Text → Text
  unfolding clean
  sanitize_path path =
      if is_empty path
      then []
      else map underscore (without_slash (clean (get_or (absolute path) path)))

  abbrev pub storage_at : Text → ConfigType → Text → FilesystemStorage
  storage_at dir kind path = record {
    base_dir = dir;
    storage_config_type = kind;
    project_path = sanitize_path path;
  }

  abbrev pub checked_project : Text → ConfigType → Text → Result StorageError FilesystemStorage
  checked_project dir global_type path = ok (storage_at dir global_type path)
  checked_project dir project_type path =
      if is_empty path then err project_path_required else ok (storage_at dir project_type path)

  unfoldable pub new_filesystem_storage :
      Text → ConfigType → Text → Result StorageError FilesystemStorage
  unfolding sanitize_path
  new_filesystem_storage dir kind path =
      if is_empty dir then err base_dir_empty else checked_project dir kind path

unfoldable pub get_storage_root : FilesystemStorage → Text
unfolding join_paths
get_storage_root f = elim f.storage_config_type [
  | global_type ↦ join_paths (join_paths (f.base_dir ∷ codes ".backups" ∷ []) ∷ codes "global" ∷ [])
  | project_type ↦
      join_paths
        (join_paths (f.base_dir ∷ codes ".backups" ∷ []) ∷ codes "projects" ∷ f.project_path ∷ [])
]

abbrev pub get_snapshots_dir : FilesystemStorage → Text
get_snapshots_dir f = join_paths (get_storage_root f ∷ codes "snapshots" ∷ [])

abbrev pub get_metadata_path : FilesystemStorage → Text
get_metadata_path f = join_paths (get_storage_root f ∷ codes "metadata.json" ∷ [])

underscore-contains_byte : (s : Text) → contains_byte b'/' (map underscore s) ≡ false
unfolding contains_byte
underscore-contains_byte [] = refl
underscore-contains_byte (c ∷ s) = ground (arith, underscore-contains_byte s)

-- The name of a project's directory has no slash, so it stands directly below the directory of all
-- projects.
pub sanitize_path-contains_byte :
    (absolute : Text → Option Text) (path : Text)
    → contains_byte b'/' (sanitize_path absolute path) ≡ false
unfolding sanitize_path contains_byte
sanitize_path-contains_byte absolute path = elim (Bool-cases (is_empty path)) [
  | inl y ↦ ap (contains_byte b'/') (if_true (is_empty path) _ _ y)
  | inr n ↦
      ap (contains_byte b'/') (if_false (is_empty path) _ _ n)
      ∙ underscore-contains_byte (without_slash (clean (get_or (absolute path) path)))
]
