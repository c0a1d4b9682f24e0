-- ===== src/Engine/Executor/Workspaces.antt =====
-- The workspace of a call of `execute` in execution-engine/src/executor/execution.service.js.
use code_arena.Prelude.{◌≡◌, ◌≢◌, ◌⊎◌, true, false, [], ◌∷◌, ◌++◌, ok, err}
use code_arena.Prelude.Text.{Text, codes, starts_with}
use code_arena.Prelude.Value.{Value}
use code_arena.Engine.Config.{node_error}
use code_arena.Engine.Workspace.{FileSystem, called_rm}
use code_arena.Engine.Executor.{Executed}

-- What `mkdtemp` promises of a directory that it has made, below the resolved base directory.
pub record MakesFresh (fs : FileSystem) : Type 0 where
  pub fresh :
      (dir : Text)
      → fs.mkdtemp (fs.join fs.base_dir (codes "sbx-")) ≡ ok dir
      → (dir ≢ [])
        × (fs.resolve dir ≡ dir)
        × (starts_with (fs.base_dir ++ codes "/") dir ≡ true)
        × (starts_with (codes "sbx-") (fs.basename dir) ≡ true)
        × (fs.is_symbolic_link dir ≡ ok false)

-- What a call that has made a directory has done with it: `chmod` failed on it, so the call throws this
-- error and leaves the directory where it is; or its cleanup has called `rm` on it.
abbrev pub IsHandled : FileSystem → Text → Executed → Type 0
IsHandled fs dir e =
    ((message : Text) × (fs.chmod dir ≡ err message)
      × (e.outcome ≡ err (node_error message))
      × (e.cleanups ≡ []))
    ⊎ ((fs.chmod dir ≡ ok tt) × (e.cleanups ≡ called_rm dir (fs.rm dir) ∷ []))

-- A call has made no directory and has cleaned up none, or it has made one and handled that alone.
abbrev pub IsCleanedUp : FileSystem → Executed → Type 0
IsCleanedUp fs e =
    ((e.created ≡ []) × (e.cleanups ≡ []))
    ⊎ ((dir : Text) × (e.created ≡ dir ∷ []) × IsHandled fs dir e)
