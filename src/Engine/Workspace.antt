-- ===== src/Engine/Workspace.antt =====
-- execution-engine/src/utils/workspace.js
pub mod Laws
use code_arena.Prelude.{
  Bool, true, false, ◌&&◌, ◌||◌, not, List, [], ◌∷◌, ◌++◌, Result, ok, err, ◌>>=◌, if◌then◌else◌,
  is_nil,
}
use code_arena.Prelude.Text.{Text, codes, starts_with}

-- What the module takes of `path`, `os` and `fs`: results of calls that have no model here.
pub record FileSystem : Type 0 where
  pub resolve : Text → Text
  pub basename : Text → Text
  pub join : Text → Text → Text
  -- `WORKSPACE_BASE_DIR`, and `os.tmpdir()`, both resolved
  pub base_dir : Text
  pub tmp_dir : Text
  -- the new directory, or the error's message
  pub mkdtemp : Text → Result Text Text
  pub chmod : Text → Result Text (Unit {0})
  pub write_file : Text → Text → Result Text (Unit {0})
  -- `lstat(p).isSymbolicLink()`
  pub is_symbolic_link : Text → Result Text Bool
  pub unlink : Text → Result Text (Unit {0})
  -- `rm` of a directory with all that it holds
  pub rm : Text → Result Text (Unit {0})

-- What `cleanupWorkspace` does to the file system, a call of `unlink` or `rm` with its result; an error
-- is caught, and logged unless it is ENOENT.
pub data Cleanup : Type 0 where
  ignored : Cleanup
  refused_outside refused_prefix : Text → Cleanup
  -- the error of `lstat`
  failed : Text → Cleanup
  called_unlink called_rm : Text → Result Text (Unit {0}) → Cleanup

module _ (fs : FileSystem) where
  open fs use {
    resolve, basename, join, base_dir, tmp_dir, mkdtemp, chmod, write_file, is_symbolic_link,
    unlink, rm,
  }

  -- The directory that `mkdtemp` has made, if it has; and what the call returns. `ensureBaseDir`
  -- ignores its errors.
  unfoldable pub create_workspace : List Text × Result Text Text
  create_workspace = elim (mkdtemp (join base_dir (codes "sbx-"))) [
    | err e ↦ ([], err e)
    | ok dir ↦ (dir ∷ [], elim (chmod dir) [ err e ↦ err e | ok u ↦ ok dir ])
  ]

  unfoldable pub write_source_file : Text → Text → Text → Result Text (Unit {0})
  write_source_file workspace_dir filename source_code =
      write_file (join workspace_dir (basename filename)) source_code

  is_within : Text → Text → Bool
  is_within dir p = starts_with (dir ++ codes "/") p

  is_managed : Text → Bool
  is_managed name = starts_with (codes "sbx-") name || starts_with (codes "codearena-exec-") name

  remove_checked : Text → Cleanup
  remove_checked p = elim (is_symbolic_link p) [
    | err e ↦ failed e
    | ok linked ↦ if linked then called_unlink p (unlink p) else called_rm p (rm p)
  ]

  unfoldable pub cleanup_workspace : Text → Cleanup
  unfolding is_within is_managed remove_checked
  cleanup_workspace workspace_dir =
      if is_nil workspace_dir
      then ignored
      else let p = resolve workspace_dir in
        if not (is_within base_dir p) && not (is_within tmp_dir p)
        then refused_outside p
        else if not (is_managed (basename p))
        then refused_prefix p
        else remove_checked p
