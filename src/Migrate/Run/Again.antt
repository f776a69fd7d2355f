-- ===== src/Migrate/Run/Again.antt =====
-- A second run, after one that answered with versions.
use reportportal_analyzer_ng.Prelude.{◌≡◌, none, List, []}
use reportportal_analyzer_ng.Text.{Text}
use reportportal_analyzer_ng.Migrate.Files.{Migration, Row, verify_applied, select_pending}
use reportportal_analyzer_ng.Migrate.Files.Verified.{Verified}
use reportportal_analyzer_ng.Migrate.Run.Laws.{Laws}

-- what a run that answers with versions leaves
abbrev Complete : List Row → List Migration → Type 0
Complete rows ms = (verify_applied rows ms ≡ none) × (select_pending rows ms ≡ [])
