-- ===== src/Migrate.antt =====
-- src/analyzer_ng/db/migrate.py: the migration runner. `Sql` splits a script into statements, `Files`
-- finds the migrations and checks them against the ledger, `Run` applies the ones that are pending.
pub mod Sql
pub mod Files
pub mod Run
mod Tests
