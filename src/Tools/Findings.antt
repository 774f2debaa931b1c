-- ===== src/Tools/Findings.antt =====
-- tools/findings.go: the store of findings that the agents of a run share. JSON is `encoding/json`'s.
pub mod Report
pub mod Order
mod Tests
use squad.Base.{Result, ok, err, ℕ, String, List, [], ◌∷◌, ◌++◌, length, if◌then◌else◌}
use squad.Base.Text.{◌==◌}

pub record Finding : Type 0 where
  pub title : String
  pub severity : String
  pub category : String
  pub description : String
  pub evidence : String
  pub agent : String

abbrev pub FindingsStore : Type 0
FindingsStore = List Finding

unfoldable pub add : Finding → FindingsStore → FindingsStore
add f store = store ++ f ∷ []

-- Why `ReportFinding` refuses.
pub data ReportError : Type 0 where
  title_required severity_required description_required : ReportError

pub record ReportFindingArgs : Type 0 where
  pub title : String
  pub severity : String
  pub category : String
  pub description : String
  pub evidence : String

-- `reportFindingTool` from the decoded arguments on: the new store, and the total that it reports.
unfoldable pub report_finding :
    String → ReportFindingArgs → FindingsStore → Result ReportError (FindingsStore × ℕ)
unfolding add
report_finding agent_name args store =
    if args.title == ""
    then err title_required
    else if args.severity == ""
    then err severity_required
    else if args.description == ""
    then err description_required
    else (let finding : Finding = record {
      title = args.title;
      severity = args.severity;
      category = args.category;
      description = args.description;
      evidence = args.evidence;
      agent = agent_name;
    } in
        ok (add finding store, length (add finding store)))
