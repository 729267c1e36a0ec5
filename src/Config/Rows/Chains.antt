-- ===== src/Config/Rows/Chains.antt =====
-- core/config/repositories.py: the queries of ChainRepo.
use chain_indexer.Base.{String, not, Option, List, filter, ◌==◌, string_comparable, pair_comparable}
use chain_indexer.Config.Rows.{Chain, Database, first}

abbrev pub get : String → Database → Option Chain
get chain_id db = first (filter (λ c. c.id == chain_id) db.chains)

abbrev pub list_enabled : Database → List Chain
list_enabled db = filter (λ c. c.enabled) db.chains

abbrev pub delete : String → Database → Database
delete chain_id db = record db { chains = filter (λ c. not (c.id == chain_id)) db.chains }
