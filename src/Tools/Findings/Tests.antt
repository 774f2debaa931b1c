-- ===== src/Tools/Findings/Tests.antt =====
-- The report of tools/findings.go, for two findings.
use squad.Base.{arith, ◌≡◌, refl, inl, inr, [], ◌∷◌, String, true}
use squad.Base.Chars.{bytes}
use squad.Tools.Findings.{Finding}
use squad.Tools.Findings.Report.{rank, format_markdown, less, severity_order}
use squad.Tools.Findings.Order.{AreApart, SameFindings, format_markdown-SameFindings}

abbrev found : String → String → Finding
found title severity = record {
  title = title;
  severity = severity;
  category = "";
  description = "seen";
  evidence = "";
  agent = "lint";
}

abbrev leak : Finding
leak = found "leak" "High"

abbrev typo : Finding
typo = found "typo" "low"

leak_first : less leak typo ≡ true
unfolding less severity_order bytes
leak_first = refl

leak-AreApart : AreApart (leak ∷ typo ∷ [])
unfolding rank
leak-AreApart = ((λ r t. absurd (let k : 1 ≡ 3 = r in omega arith), tt), (tt, tt))

typo-AreApart : AreApart (typo ∷ leak ∷ [])
unfolding rank
typo-AreApart = ((λ r t. absurd (let k : 3 ≡ 1 = r in omega arith), tt), (tt, tt))

swapped : SameFindings (leak ∷ typo ∷ []) (typo ∷ leak ∷ [])
swapped x = (
  λ i. elim i [ inl e ↦ inr (inl e) | inr (inl e) ↦ inl e | inr (inr j) ↦ inr (inr j) ],
  λ i. elim i [ inl e ↦ inr (inl e) | inr (inl e) ↦ inl e | inr (inr j) ↦ inr (inr j) ],
)

-- A severity that the tables do not know ranks with the critical ones, and no row counts it.
unknown_severity_run : severity_order (bytes "urgent") ≡ severity_order (bytes "critical")
unfolding severity_order bytes
unknown_severity_run = refl

format_markdown-SameFindings_example :
    format_markdown (leak ∷ typo ∷ []) ≡ format_markdown (typo ∷ leak ∷ [])
format_markdown-SameFindings_example =
    format_markdown-SameFindings (leak ∷ typo ∷ []) (typo ∷ leak ∷ []) leak-AreApart typo-AreApart
      swapped
