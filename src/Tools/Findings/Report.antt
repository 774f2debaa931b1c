-- ===== src/Tools/Findings/Report.antt =====
-- The report of tools/findings.go in Markdown. Letters are folded as in ASCII.
use squad.Base.{ℕ, suc, ◌==◌, List, [], ◌∷◌, ◌++◌, map, Bool, if◌then◌else◌, ltb}
use squad.Base.Chars.{Chars, bytes, same_text, lower, upper}
use squad.Pipeline.Handoff.{decimal}
use squad.Base.Sort.{text_lt}
use squad.Tools.Findings.{Finding, FindingsStore}

-- `strings.ToLower(f.Severity)`
unfoldable pub severity_of : Finding → Chars
unfolding bytes
severity_of f = map lower (bytes f.severity)

abbrev pub severities : List Chars
severities = map bytes ("critical" ∷ "high" ∷ "medium" ∷ "low" ∷ "info" ∷ [])

-- `severityOrder`, where a missing key reads as 0.
unfoldable pub severity_order : Chars → ℕ
unfolding same_text bytes
severity_order s =
    if same_text s (bytes "high")
    then 1
    else if same_text s (bytes "medium")
    then 2
    else if same_text s (bytes "low")
    then 3
    else if same_text s (bytes "info")
    then 4
    else 0

unfoldable pub rank : Finding → ℕ
unfolding severity_order severity_of
rank f = severity_order (severity_of f)

-- The order of the report.
unfoldable pub less : Finding → Finding → Bool
unfolding rank text_lt bytes
less f g =
    if rank f == rank g then text_lt (bytes f.title) (bytes g.title) else ltb (rank f) (rank g)

-- `sort.Slice`. It may put findings that the order does not tell apart in any order; this is one.
unfoldable pub insert_finding : Finding → List Finding → List Finding
unfolding less
insert_finding f [] = f ∷ []
insert_finding f (g ∷ gs) =
    let later = insert_finding f gs in if less f g then f ∷ g ∷ gs else g ∷ later

unfoldable pub sort_findings : List Finding → List Finding
unfolding insert_finding
sort_findings [] = []
sort_findings (f ∷ fs) = insert_finding f (sort_findings fs)

-- `counts[sev]`
unfoldable pub severity_count : Chars → List Finding → ℕ
unfolding severity_of same_text
severity_count s [] = 0
severity_count s (f ∷ fs) =
    let rest = severity_count s fs in if same_text (severity_of f) s then suc rest else rest

unfoldable pub count_rows : List Chars → List Finding → Chars
unfolding severity_count
count_rows [] fs = []
count_rows (s ∷ ss) fs =
    let later = count_rows ss fs in
    if ltb 0 (severity_count s fs)
    then bytes "| "
      ++ map upper s
      ++ bytes " | "
      ++ decimal (severity_count s fs)
      ++ bytes " |\n"
      ++ later
    else later

unfoldable pub optional_line : Chars → Chars → Chars → Chars
optional_line before [] after = []
optional_line before (c ∷ s) after = before ++ (c ∷ s) ++ after

unfoldable pub finding_sections : ℕ → List Finding → Chars
unfolding optional_line
finding_sections i [] = []
finding_sections i (f ∷ fs) =
    bytes "### "
    ++ decimal (suc i)
    ++ bytes ". ["
    ++ map upper (bytes f.severity)
    ++ bytes "] "
    ++ bytes f.title
    ++ bytes "\n\n"
    ++ optional_line (bytes "**Category:** ") (bytes f.category) (bytes "\n\n")
    ++ optional_line (bytes "**Reported by:** ") (bytes f.agent) (bytes "\n\n")
    ++ bytes f.description
    ++ bytes "\n"
    ++ optional_line (bytes "\n**Evidence:**\n```\n") (bytes f.evidence) (bytes "\n```\n")
    ++ bytes "\n"
    ++ finding_sections (suc i) fs

unfoldable pub report_of : List Finding → Chars
unfolding count_rows finding_sections
report_of [] = bytes "No findings reported.\n"
report_of (f ∷ fs) =
    bytes "## Findings\n\n| Severity | Count |\n|----------|-------|\n"
    ++ count_rows severities (f ∷ fs)
    ++ bytes "\n"
    ++ finding_sections 0 (f ∷ fs)

unfoldable pub format_markdown : FindingsStore → Chars
unfolding report_of sort_findings
format_markdown store = report_of (sort_findings store)
