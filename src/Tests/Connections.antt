-- ===== src/Tests/Connections.antt =====
-- A server that answers the third attempt.
use code_arena.Prelude.{
  ◌≡◌, refl, ℕ, ◌+◌, ◌*◌, ◌^◌, false, ◌==◌, Result, ok, err, if◌then◌else◌, inl, arith,
}
use code_arena.Prelude.Text.{Text, codes}
use code_arena.Connections.Database.{connect_db}
use code_arena.Connections.Database.Laws.{sum, outcome_of, connect_db_lem}

abbrev third : ℕ → Result Text ℕ
third n = if n == 3 then ok n else err (codes "ECONNREFUSED")

connect_db_lem_example :
    ((connect_db third false 5 1000).outcome ≡ outcome_of third 1000 (third 3))
    × (sum (connect_db third false 5 1000).waits + 1000 ≡ 1000 * 2 ^ 2)
connect_db_lem_example = connect_db_lem third 1000 2 5 false (omega arith) refl (inl refl)
