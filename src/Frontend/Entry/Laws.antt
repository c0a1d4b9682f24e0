-- ===== src/Frontend/Entry/Laws.antt =====
-- What the sign-up page sends and what the backend's validation makes of it.
use code_arena.Prelude.Text.{Text}
