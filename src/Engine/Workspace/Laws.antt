-- ===== src/Engine/Workspace/Laws.antt =====
-- What the cleanup of a workspace can delete.
use code_arena.Prelude.{
  ◌≤◌, ◌≡◌, ◌≢◌, ap, ◌⊎◌, true, false, [], ◌∷◌, ◌++◌, arith, Result, ok, length, length-append,
}
use code_arena.Prelude.Text.{Text, codes, starts_with}
use code_arena.Engine.Workspace.{FileSystem, Cleanup, called_unlink, called_rm, cleanup_workspace}

starts_with-length : (p s : Text) → starts_with p s ≡ true → length p ≤ length s
unfolding starts_with
starts_with-length [] s h = omega arith
starts_with-length (a ∷ p) [] h = cc
starts_with-length (a ∷ p) (b ∷ s) h = ground (arith, starts_with-length p s)

ne-of_within : (d p : Text) → starts_with (d ++ codes "/") p ≡ true → p ≢ d
ne-of_within d p h e =
    omega (arith, starts_with-length (d ++ codes "/") p h, length-append d (codes "/"), ap length e)

-- The path lies strictly below a base directory, under a name that the engine gives.
pub record IsOwned (fs : FileSystem) (p : Text) : Type 0 where
  pub below :
      (starts_with (fs.base_dir ++ codes "/") p ≡ true)
      ⊎ (starts_with (fs.tmp_dir ++ codes "/") p ≡ true)
  pub named :
      (starts_with (codes "sbx-") (fs.basename p) ≡ true)
      ⊎ (starts_with (codes "codearena-exec-") (fs.basename p) ≡ true)

module _ (fs : FileSystem) (dir p : Text) where
  -- the cleanup calls unlink or rm on the path, with whatever result
  abbrev pub Deletes : Cleanup → Type 0
  Deletes c = (r : Result Text (Unit {0})) × ((c ≡ called_rm p r) ⊎ (c ≡ called_unlink p r))

  -- The cleanup deletes nothing but the directory that it was given, resolved, and that only below
  -- a base directory and under a managed name; a symbolic link there is unlinked, not followed.
  -- Calls of unlink and rm count whether they succeed or not.
  pub cleanup_workspace-IsOwned :
      Deletes (cleanup_workspace fs dir)
      → (p ≡ fs.resolve dir)
        × IsOwned fs p
        × ((r : Result Text (Unit {0}))
            → cleanup_workspace fs dir ≡ called_rm p r
            → fs.is_symbolic_link p ≡ ok false)
  unfolding cleanup_workspace
  cleanup_workspace-IsOwned (r, h) = ground arith

-- The cleanup of a new workspace calls rm on it.
pub cleanup_workspace-new :
    (fs : FileSystem) (dir : Text)
    → dir ≢ []
    → fs.resolve dir ≡ dir
    → starts_with (fs.base_dir ++ codes "/") dir ≡ true
    → starts_with (codes "sbx-") (fs.basename dir) ≡ true
    → fs.is_symbolic_link dir ≡ ok false
    → cleanup_workspace fs dir ≡ called_rm dir (fs.rm dir)
unfolding cleanup_workspace
cleanup_workspace-new fs dir n r b s l = ground arith
