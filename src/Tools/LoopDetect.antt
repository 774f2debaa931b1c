-- ===== src/Tools/LoopDetect.antt =====
-- tools/loopdetect.go: steps of an agent that repeat.
pub mod Stuck
use Prim.Native.String.{compare}
use text.Mathlib.Text.{is_lt}
use squad.Base.{
  ℕ, suc, ◌+◌, ◌-◌, String, List, [], ◌∷◌, ◌++◌, Bool, true, false, Option, none, some, length,
  drop, ltb, leb, if◌then◌else◌,
}
use squad.Base.Text.{◌==◌}
use squad.Base.Chars.{Chars, bytes}

abbrev pub loop_window_size : ℕ
loop_window_size = 10

abbrev pub loop_max_repeats : ℕ
loop_max_repeats = 3

pub record LoopDetector : Type 0 where
  pub signatures : List String

pub record FunctionCall : Type 0 where
  pub name : String
  pub arguments : Chars

-- `llms.ToolCall`
pub record ToolCall : Type 0 where
  pub id : String
  pub call_type : String
  pub function_call : Option FunctionCall

insert_by_id : ToolCall → List ToolCall → List ToolCall
insert_by_id c [] = c ∷ []
insert_by_id c (d ∷ ds) = if is_lt (compare d.id c.id) then d ∷ insert_by_id c ds else c ∷ d ∷ ds

-- `sort.Slice` by the id of the call.
unfoldable pub sort_by_id : List ToolCall → List ToolCall
unfolding insert_by_id
sort_by_id [] = []
sort_by_id (c ∷ cs) = insert_by_id c (sort_by_id cs)

-- What is written into the hash; a zero byte ends each piece.
unfoldable pub pieces : List ToolCall → (String → Chars) → List Chars
pieces [] results = []
pieces (c ∷ cs) results = elim c.function_call [
  | none ↦ pieces cs results
  | some f ↦ bytes f.name ∷ f.arguments ∷ results c.id ∷ pieces cs results
]

-- `digest` is SHA-256 of the pieces, in hexadecimal digits.
unfoldable pub step_signature : (List Chars → String) → List ToolCall → (String → Chars) → String
unfolding pieces sort_by_id
step_signature digest [] results = ""
step_signature digest (c ∷ cs) results = digest (pieces (sort_by_id (c ∷ cs)) results)

unfoldable pub record_step :
    (List Chars → String) → List ToolCall → (String → Chars) → LoopDetector → LoopDetector
unfolding step_signature
record_step digest calls results ld =
    let sig = step_signature digest calls results in
    if sig == "" then ld else record { signatures = ld.signatures ++ sig ∷ [] }

-- The map `counts`: a signature that it does not hold counts 0.
abbrev pub Counts : Type 0
Counts = String → ℕ

unfoldable pub repeats : Counts → List String → Bool
repeats counts [] = false
repeats counts (sig ∷ window) =
    let n = counts sig + 1 in
    let rest = repeats (λ k. if sig == k then n else counts k) window in
    if leb loop_max_repeats n then true else rest

unfoldable pub window_of : List String → List String
window_of sigs =
    let n = length sigs in drop (if ltb loop_window_size n then n - loop_window_size else 0) sigs

unfoldable pub stuck : LoopDetector → Bool
unfolding repeats window_of
stuck ld = repeats (λ k. 0) (window_of ld.signatures)
