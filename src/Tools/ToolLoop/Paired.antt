-- ===== src/Tools/ToolLoop/Paired.antt =====
-- The conversation that the tool loop builds: each call of a tool is answered at once, in order.
pub mod Shortened
pub mod Answers
pub mod Resumed
use squad.Base.{
  ℕ, zero, suc, ◌≡◌, ◌≢◌, refl, sym, ap, ◌∙◌, subst, String, List, [], ◌∷◌, ◌++◌, map, Bool, true,
  false, Option, none, some, Bool-cases, inl, inr, take, drop, take-append-drop, arith,
  if◌then◌else◌,
}
use squad.Base.Chars.{Chars}
use squad.Tools.LoopDetect.{ToolCall}
use squad.Tools.Messages.{
  Message, Part, text, call, response, cached, binary, ToolResponse, human_text, call_parts,
}
use squad.Tools.Compaction.{
  compact_parts, compact_message, compact_middle, compacted, score_message,
}
use squad.Tools.Rolling.{
  compact_tool_parts, roll_middle, roll_rest, roll_all, rolling_compact, middle_length, stays,
  rolled, is_tool, semantic_keep_threshold,
}
use squad.Base.{leb, ltb, length}

-- The ids of the calls that the parts ask for, and of the results that they hold.
unfoldable pub part_calls : Part → List String
part_calls (call c) = c.id ∷ []
part_calls (text t) = []
part_calls (response r) = []
part_calls (cached p) = part_calls p
part_calls (binary b) = []

unfoldable pub part_responses : Part → List String
part_responses (response r) = r.tool_call_id ∷ []
part_responses (call c) = []
part_responses (text t) = []
part_responses (cached p) = part_responses p
part_responses (binary b) = []

unfoldable pub call_ids : List Part → List String
unfolding part_calls
call_ids [] = []
call_ids (p ∷ ps) = part_calls p ++ call_ids ps

unfoldable pub response_ids : List Part → List String
unfolding part_responses
response_ids [] = []
response_ids (p ∷ ps) = part_responses p ++ response_ids ps

-- The messages begin with the results of the calls that are open, in order and with nothing between;
-- after them, and after every later message with calls, it is the same again, and no call is open at
-- the end.
abbrev pub Expects : List String → List Message → Type 0
Expects [] [] = Unit
Expects (i ∷ is) [] = ⊥
Expects [] (m ∷ ms) = (response_ids m.parts ≡ []) × Expects (call_ids m.parts) ms
Expects (i ∷ is) (m ∷ ms) =
    (rest : List String) × (response_ids m.parts ≢ [])
    × (response_ids m.parts ++ rest ≡ i ∷ is)
    × (call_ids m.parts ≡ [])
    × Expects rest ms

abbrev pub IsPaired : List Message → Type 0
IsPaired ms = Expects [] ms

-- Two messages stand first that call no tool.
abbrev pub IsHeaded : List Message → Type 0
IsHeaded [] = ⊥
IsHeaded (a ∷ []) = ⊥
IsHeaded (a ∷ b ∷ ms) = (call_ids a.parts ≡ []) × (call_ids b.parts ≡ [])

pub Expects-append :
    (open_ids : List String) (xs ys : List Message)
    → Expects open_ids xs
    → Expects [] ys
    → Expects open_ids (xs ++ ys)
Expects-append [] [] ys h k = k
Expects-append (i ∷ is) [] ys h k = absurd h
Expects-append [] (m ∷ xs) ys h k = (h.0, Expects-append (call_ids m.parts) xs ys h.1 k)
Expects-append (i ∷ is) (m ∷ xs) ys (rest, some_ids, e, none_called, h) k =
    (rest, some_ids, e, none_called, Expects-append rest xs ys h k)

pub IsHeaded-append : (xs ys : List Message) → IsHeaded xs → IsHeaded (xs ++ ys)
IsHeaded-append [] ys h = absurd h
IsHeaded-append (a ∷ []) ys h = absurd h
IsHeaded-append (a ∷ b ∷ xs) ys h = h

pub human_text-IsPaired : (t : Chars) → IsPaired (human_text t ∷ [])
unfolding human_text response_ids call_ids
human_text-IsPaired t = (refl, tt)

-- The same calls and results in each message.
abbrev pub SameIds : Message → Message → Type 0
SameIds m n = (response_ids m.parts ≡ response_ids n.parts) × (call_ids m.parts ≡ call_ids n.parts)

abbrev pub SameShape : List Message → List Message → Type 0
SameShape [] [] = Unit
SameShape [] (n ∷ ns) = ⊥
SameShape (m ∷ ms) [] = ⊥
SameShape (m ∷ ms) (n ∷ ns) = SameIds m n × SameShape ms ns

pub Expects-SameShape :
    (open_ids : List String) (ms ns : List Message)
    → SameShape ms ns
    → Expects open_ids ns
    → Expects open_ids ms
Expects-SameShape open_ids [] [] s h = h
Expects-SameShape open_ids [] (n ∷ ns) s h = absurd s
Expects-SameShape open_ids (m ∷ ms) [] s h = absurd s
Expects-SameShape [] (m ∷ ms) (n ∷ ns) ((r, c), s) h =
    (r ∙ h.0, Expects-SameShape (call_ids m.parts) ms ns s (subst (λ x. Expects x ns) (sym c) h.1))
Expects-SameShape (i ∷ is) (m ∷ ms) (n ∷ ns) ((r, c), s) (rest, some_ids, e, none_called, h) = (
  rest,
  λ empty. some_ids (sym r ∙ empty),
  ap (λ x. x ++ rest) r ∙ e,
  c ∙ none_called,
  Expects-SameShape rest ms ns s h,
)

pub SameShape-refl : (ms : List Message) → SameShape ms ms
SameShape-refl [] = tt
SameShape-refl (m ∷ ms) = ((refl, refl), SameShape-refl ms)

pub SameShape-append :
    (ms ns rest : List Message) → SameShape ms ns → SameShape (ms ++ rest) (ns ++ rest)
SameShape-append [] [] rest s = SameShape-refl rest
SameShape-append [] (n ∷ ns) rest s = absurd s
SameShape-append (m ∷ ms) [] rest s = absurd s
SameShape-append (m ∷ ms) (n ∷ ns) rest (first, s) = (first, SameShape-append ms ns rest s)

-- A message may be changed in its results only, and these keep their ids.
pub compact_tool_parts_ids :
    (ps : List Part) (m : Message) (edited : List Chars)
    → (response_ids (compact_tool_parts ps m edited) ≡ response_ids ps)
      × (call_ids (compact_tool_parts ps m edited) ≡ call_ids ps)
unfolding compact_tool_parts response_ids call_ids
compact_tool_parts_ids [] m edited = (refl, refl)
compact_tool_parts_ids (response r ∷ ps) m edited =
    let (same, calls) = compact_tool_parts_ids ps m edited in
    (rolled_id (stays m edited r) r same, calls)
  where
    rolled_id :
        (b : Bool) (r : ToolResponse) {xs ys : List String}
        → xs ≡ ys
        → (if b then r else rolled r).tool_call_id ∷ xs ≡ r.tool_call_id ∷ ys
    rolled_id true r e = ap (λ l. r.tool_call_id ∷ l) e
    rolled_id false r e = unfold rolled in ap (λ l. r.tool_call_id ∷ l) e
compact_tool_parts_ids (text t ∷ ps) m edited = compact_tool_parts_ids ps m edited
compact_tool_parts_ids (call c ∷ ps) m edited =
    let (same, calls) = compact_tool_parts_ids ps m edited in (same, ap (λ l. c.id ∷ l) calls)
compact_tool_parts_ids (cached p ∷ ps) m edited =
    let (same, calls) = compact_tool_parts_ids ps m edited in
    (ap (λ l. part_responses p ++ l) same, ap (λ l. part_calls p ++ l) calls)
compact_tool_parts_ids (binary b ∷ ps) m edited = compact_tool_parts_ids ps m edited

pub compact_parts_ids :
    (ps : List Part)
    → (response_ids (compact_parts ps) ≡ response_ids ps)
      × (call_ids (compact_parts ps) ≡ call_ids ps)
unfolding compact_parts response_ids call_ids
compact_parts_ids [] = (refl, refl)
compact_parts_ids (response r ∷ ps) =
    let (same, calls) = compact_parts_ids ps in (compacted_id r same, calls)
  where
    compacted_id :
        (r : ToolResponse) {xs ys : List String}
        → xs ≡ ys
        → (compacted r).tool_call_id ∷ xs ≡ r.tool_call_id ∷ ys
    compacted_id r e =
        unfold compacted in
        elim (Bool-cases (ltb 200 (length r.content))) [
          | inl t ↦ rw t (ap (λ l. r.tool_call_id ∷ l) e)
          | inr t ↦ rw t (ap (λ l. r.tool_call_id ∷ l) e)
        ]
compact_parts_ids (text t ∷ ps) = compact_parts_ids ps
compact_parts_ids (call c ∷ ps) =
    let (same, calls) = compact_parts_ids ps in (same, ap (λ l. c.id ∷ l) calls)
compact_parts_ids (cached p ∷ ps) =
    let (same, calls) = compact_parts_ids ps in
    (ap (λ l. part_responses p ++ l) same, ap (λ l. part_calls p ++ l) calls)
compact_parts_ids (binary b ∷ ps) = compact_parts_ids ps
