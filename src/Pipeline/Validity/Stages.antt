-- ===== src/Pipeline/Validity/Stages.antt =====
-- `validateStages` of pipeline/pipeline.go: which stages it accepts, and the names that it returns.
use squad.Base.{
  ℕ, ◌+◌, String, List, [], ◌∷◌, ◌≡◌, ◌≢◌, refl, sym, subst, ◌↔◌, ◌⊎◌, inl, inr, Bool, false, not,
  ◌&&◌, ◌||◌, Option, none, some, ok, refuse_passed, refuse_inv, refuse_intro, then_inv, then_intro,
  arith, Bool-cases,
}
use squad.Base.Text.{◌==◌, eq_iff}
use squad.Base.All.{All, In, Distinct, contains, contains_iff}
use squad.Pipeline.{Stage, Partition, agent_list}
use squad.Pipeline.Cycle.Acyclic.{names_of}
use squad.Pipeline.Validate.{
  pass, check_partition, check_stage, is_empty, bad_summarize, validate_stages,
}

abbrev pub IsPartitionOk : Stage → Option Partition → Type 0
IsPartitionOk s none = Unit
IsPartitionOk s (some p) = (s.agent ≢ "") × (p.by ≡ "files") × (p.glob ≢ "")

pub record IsStageOk (s : Stage) : Type 0 where
  pub named : s.name ≢ ""
  pub runs : agent_list s ≢ []
  pub one_kind : (s.agent ≡ "") ⊎ (s.agents ≡ [])
  pub partition_ok : IsPartitionOk s s.partition
  pub summarize_ok : In s.summarize ("" ∷ "auto" ∷ "always" ∷ "never" ∷ [])

check_partition_iff :
    (s : Stage) (o : Option Partition) → (check_partition s o ≡ pass) ↔ IsPartitionOk s o
unfolding check_partition
check_partition_iff s none = (λ h. tt, λ h. refl)
check_partition_iff s (some p) = (
  λ h. ground (arith, eq_iff s.agent "", eq_iff p.by "files", eq_iff p.glob ""),
  λ h. ground (arith, eq_iff s.agent "", eq_iff p.by "files", eq_iff p.glob ""),
)

abbrev summaries : List String
summaries = "" ∷ "auto" ∷ "always" ∷ "never" ∷ []

abbrev summarize_known : String → Bool
summarize_known m = m == "" || m == "auto" || m == "always" || m == "never"

summarize_iff : (m : String) → (not (summarize_known m) ≡ false) ↔ In m summaries
summarize_iff m = (
  λ h. ground (arith, eq_iff m "", eq_iff m "auto", eq_iff m "always", eq_iff m "never"),
  λ h. ground (arith, eq_iff m "", eq_iff m "auto", eq_iff m "always", eq_iff m "never"),
)

is_empty_iff : (xs : List String) → (is_empty xs ≡ false) ↔ (xs ≢ [])
is_empty_iff [] = (λ h. absurd (cc), λ h. absurd (h refl))
is_empty_iff (x ∷ xs) = ((λ h e. cc), λ h. refl)

one_kind_iff :
    (a : String) (more : List String)
    → (not (a == "") && not (is_empty more) ≡ false) ↔ ((a ≡ "") ⊎ (more ≡ []))
one_kind_iff a [] = (λ h. inr refl, λ h. ground arith)
one_kind_iff a (x ∷ xs) = (λ h. ground (arith, eq_iff a ""), λ h. ground (arith, eq_iff a ""))

check_stage_iff : (s : Stage) → s.name ≢ "" → (check_stage s ≡ pass) ↔ IsStageOk s
unfolding check_stage
check_stage_iff s n = (
  λ h.
      let (a, h1) = refuse_inv _ _ _ _ h in
      let (b, h2) = refuse_inv _ _ _ _ h1 in
      let (c, h3) = then_inv _ _ _ h2 in
      let d =
        refuse_passed (not (summarize_known s.summarize)) (bad_summarize s.name s.summarize) h3 in
      record {
        named = n;
        runs = (is_empty_iff _).0 a;
        one_kind = (one_kind_iff _ _).0 b;
        partition_ok = (check_partition_iff s s.partition).0 c;
        summarize_ok = (summarize_iff _).0 d;
      },
  λ h. refuse_intro _ _ _ _ ((is_empty_iff _).1 h.runs) (
      refuse_intro _ _ _ _ ((one_kind_iff _ _).1 h.one_kind) (
        then_intro _ _ _ ((check_partition_iff s s.partition).1 h.partition_ok)
          (rw ((summarize_iff _).1 h.summarize_ok)))),
)

-- No name of the second list is in the first.
abbrev pub Fresh : List String → List String → Type 0
Fresh seen = All (λ n. In n seen → ⊥)

not_contains : (seen : List String) (n : String) → contains seen n ≡ false → In n seen → ⊥
not_contains seen n h i = ground (arith, (contains_iff seen n).1 i)

contains_not : (seen : List String) (n : String) → (In n seen → ⊥) → contains seen n ≡ false
contains_not seen n h = elim (Bool-cases (contains seen n)) [
  | inl e ↦ absurd (h ((contains_iff seen n).0 e))
  | inr e ↦ e
]

Fresh-cons :
    (n : String) (seen ms : List String) → (In n ms → ⊥) → Fresh seen ms → Fresh (n ∷ seen) ms
Fresh-cons n seen [] out f = tt
Fresh-cons n seen (m ∷ ms) out f = (
  (λ i. elim i [ inl e ↦ out (inl (sym e)) | inr j ↦ f.0 j ]),
  Fresh-cons n seen ms (λ i. out (inr i)) f.1,
)

Fresh-uncons :
    (n : String) (seen ms : List String) → Fresh (n ∷ seen) ms → (In n ms → ⊥) × Fresh seen ms
Fresh-uncons n seen [] f = ((λ i. i), tt)
Fresh-uncons n seen (m ∷ ms) f =
    let (out, rest) = Fresh-uncons n seen ms f.1 in
    ((λ i. elim i [ inl e ↦ f.0 (inl (sym e)) | inr j ↦ out j ]), ((λ i. f.0 (inr i)), rest))

regroup : {P Q R : Type 0} → P ⊎ Q ⊎ R → (Q ⊎ P) ⊎ R
regroup (inl p) = inl (inr p)
regroup (inr (inl q)) = inl (inl q)
regroup (inr (inr r)) = inr r

ungroup : {P Q R : Type 0} → (Q ⊎ P) ⊎ R → P ⊎ Q ⊎ R
ungroup (inl (inl q)) = inr (inl q)
ungroup (inl (inr p)) = inl p
ungroup (inr r) = inr (inr r)

pub validate_stages_sound :
    (i : ℕ) (seen : List String) (ss : List Stage) (names : List String)
    → validate_stages i seen ss ≡ ok names
    → All IsStageOk ss
      × Distinct (names_of ss)
      × Fresh seen (names_of ss)
      × ((n : String) → In n names ↔ (In n (names_of ss) ⊎ In n seen))
unfolding validate_stages
validate_stages_sound i seen [] names h = (
  tt,
  tt,
  tt,
  (λ n. (
    (λ j. inr (subst (In n) (sym (cc)) j)),
    λ j. elim j [ inl k ↦ absurd k | inr k ↦ subst (In n) (cc) k ],
  )),
)
validate_stages_sound i seen (s ∷ ss) names h =
    let (a, h1) = refuse_inv _ _ _ _ h in
    let (b, h2) = refuse_inv _ _ _ _ h1 in
    let (c, h3) = then_inv _ _ _ h2 in
    let (oks, distinct, fresh, same) = validate_stages_sound (i + 1) (s.name ∷ seen) ss names h3 in
    let (out, fresh') = Fresh-uncons s.name seen (names_of ss) fresh in
    (
      ((check_stage_iff s (λ e. ground (arith, eq_iff s.name ""))).0 c, oks),
      (out, distinct),
      (not_contains seen s.name b, fresh'),
      (λ n. ((λ j. regroup ((same n).0 j)), λ j. (same n).1 (ungroup j))),
    )

pub validate_stages_complete :
    (i : ℕ) (seen : List String) (ss : List Stage)
    → All IsStageOk ss
    → Distinct (names_of ss)
    → Fresh seen (names_of ss)
    → (names : List String) × (validate_stages i seen ss ≡ ok names)
unfolding validate_stages
validate_stages_complete i seen [] oks distinct fresh = (seen, refl)
validate_stages_complete i seen (s ∷ ss) oks distinct fresh =
    let (names, rest) =
      validate_stages_complete (i + 1) (s.name ∷ seen) ss oks.1 distinct.1
        (Fresh-cons s.name seen (names_of ss) distinct.0 fresh.1) in
    (
      names,
      refuse_intro _ _ _ _ (ground (arith, eq_iff s.name "", oks.0.named)) (
          refuse_intro _ _ _ _ (contains_not seen s.name fresh.0)
            (then_intro _ _ _ ((check_stage_iff s oks.0.named).1 oks.0) rest)),
    )

pub Fresh-nil : (ms : List String) → Fresh [] ms
Fresh-nil [] = tt
Fresh-nil (m ∷ ms) = ((λ i. i), Fresh-nil ms)
