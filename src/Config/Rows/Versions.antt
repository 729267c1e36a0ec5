-- ===== src/Config/Rows/Versions.antt =====
-- core/config/repositories.py: the queries of ConfigVersionRepo.
use chain_indexer.Base.{ℕ, ◌+◌, none, some, string_comparable, pair_comparable}
use chain_indexer.Config.Rows.{Database}

abbrev pub get : Database → ℕ
get db = elim db.config_version [ none ↦ 0 | some v ↦ v ]

-- The new version, and the database with it.
abbrev pub bump : Database → ℕ × Database
bump db = elim db.config_version [
  | none ↦ (1, record db { config_version = some 1 })
  | some v ↦ (v + 1, record db { config_version = some (v + 1) })
]
