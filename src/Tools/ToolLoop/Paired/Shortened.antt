-- ===== src/Tools/ToolLoop/Paired/Shortened.antt =====
-- Shortening a conversation leaves each call with its results.
use squad.Base.{
  ℕ, refl, sym, subst, List, [], ◌∷◌, ◌++◌, Bool, true, false, Option, none, some, Bool-cases, inl,
  inr, take, drop, take-append-drop, leb, if◌then◌else◌,
}
use squad.Base.Chars.{Chars}
use squad.Tools.Messages.{Message, human_text}
use squad.Tools.ReadCache.{ReadCache}
use squad.Tools.Compaction.{
  compact_message, compact_middle, score_message, with_summary, compact_rest, compact_all,
  compact_messages,
}
use squad.Tools.Calibration.{TokenCalibration, BudgetUse}
use squad.Tools.Rolling.{
  roll_middle, roll_rest, roll_all, rolling_compact, middle_length, is_tool,
  semantic_keep_threshold, collect_edited_files,
}
use squad.Tools.ToolLoop.Paired.{
  Expects, IsPaired, IsHeaded, SameShape, SameIds, SameShape-append, Expects-SameShape,
  Expects-append, compact_tool_parts_ids, compact_parts_ids, human_text-IsPaired,
}

roll_middle-shape :
    (previous : Message) (ms : List Message) (edited : List Chars)
    → SameShape (roll_middle previous ms edited) ms
unfolding roll_middle
roll_middle-shape previous [] edited = tt
roll_middle-shape previous (m ∷ ms) edited = elim (Bool-cases (is_tool m.role)) [
  | inl e ↦ rw e (compact_tool_parts_ids m.parts previous edited, roll_middle-shape _ ms edited)
  | inr e ↦ rw e ((refl, refl), roll_middle-shape m ms edited)
]

compact_message-ids :
    (edited recent : List Chars) (m : Message) → SameIds (compact_message edited recent m) m
unfolding compact_message
compact_message-ids edited recent m =
    elim (Bool-cases (leb semantic_keep_threshold (score_message m edited recent))) [
      | inl e ↦ rw e (refl, refl)
      | inr e ↦ rw e (elim (Bool-cases (is_tool m.role)) [
        | inl t ↦ rw t (compact_parts_ids m.parts)
        | inr t ↦ rw t (refl, refl)
      ])
    ]

compact_middle-shape :
    (edited recent : List Chars) (ms : List Message)
    → SameShape (compact_middle edited recent ms) ms
unfolding compact_middle
compact_middle-shape edited recent [] = tt
compact_middle-shape edited recent (m ∷ ms) =
    (compact_message-ids edited recent m, compact_middle-shape edited recent ms)

-- Where the head of a list is changed in its shape only, what is expected of the list stays.
spliced-IsPaired :
    (n : ℕ) (front rest : List Message)
    → SameShape front (take n rest)
    → IsPaired rest
    → IsPaired (front ++ drop n rest)
spliced-IsPaired n front rest s h =
    Expects-SameShape [] (front ++ drop n rest) rest
      (subst (λ l. SameShape (front ++ drop n rest) l) (take-append-drop n rest)
        (SameShape-append front (take n rest) (drop n rest) s))
      h

-- What is expected after the first two messages.
pub IsPaired-rest :
    (a b : Message) (rest : List Message)
    → IsHeaded (a ∷ b ∷ rest)
    → IsPaired (a ∷ b ∷ rest)
    → IsPaired rest
IsPaired-rest a b rest h p =
    subst (λ l. Expects l rest) h.1 ((subst (λ l. Expects l (b ∷ rest)) h.0 p.1).1)

pub IsPaired-with :
    (a b : Message) (rest other : List Message)
    → IsHeaded (a ∷ b ∷ rest)
    → IsPaired (a ∷ b ∷ rest)
    → IsPaired other
    → IsPaired (a ∷ b ∷ other)
IsPaired-with a b rest other h p o = (
  p.0,
  subst (λ l. Expects l (b ∷ other)) (sym h.0)
      ((subst (λ l. Expects l (b ∷ rest)) h.0 p.1).0, subst (λ l. Expects l other) (sym h.1) o),
)

-- The head, and the answers to the calls.
abbrev pub IsConversation : List Message → Type 0
IsConversation ms = IsHeaded ms × IsPaired ms

roll_all-IsConversation :
    (ms : List Message) (edited : List Chars)
    → IsConversation ms
    → IsConversation (roll_all ms edited)
unfolding roll_all roll_rest
roll_all-IsConversation [] edited h = h
roll_all-IsConversation (a ∷ []) edited h = h
roll_all-IsConversation (a ∷ b ∷ rest) edited (h, p) = (
  h,
  IsPaired-with a b rest _ h p (
      spliced-IsPaired (middle_length rest) (roll_middle b (take (middle_length rest) rest) edited)
        rest (roll_middle-shape b (take (middle_length rest) rest) edited)
        (IsPaired-rest a b rest h p)),
)

rolling_compact-IsConversation :
    (ms : List Message) (i : ℕ) → IsConversation ms → IsConversation (rolling_compact ms i)
unfolding rolling_compact
rolling_compact-IsConversation ms i h = by_test _
  where
    by_test : (b : Bool) → IsConversation (if b then ms else roll_all ms (collect_edited_files ms))
    by_test true = h
    by_test false = roll_all-IsConversation ms (collect_edited_files ms) h

with_summary-IsPaired :
    (t : Option Chars) (ms : List Message) → IsPaired ms → IsPaired (with_summary t ms)
unfolding with_summary
with_summary-IsPaired none ms p = p
with_summary-IsPaired (some t) ms p =
    Expects-append [] (human_text t ∷ []) ms (human_text-IsPaired t) p

module _ (ratio : ℕ → ℕ → ℕ → ℕ) (visit : List (Chars × ℕ) → List (Chars × ℕ)) where
  compact_all-IsConversation :
      (rc : ReadCache) (ms : List Message)
      → IsConversation ms
      → IsConversation (compact_all ratio visit rc ms).0
  unfolding compact_all compact_rest
  compact_all-IsConversation rc [] h = h
  compact_all-IsConversation rc (a ∷ []) h = h
  compact_all-IsConversation rc (a ∷ b ∷ rest) (h, p) = (
    h,
    IsPaired-with a b rest _ h p (
        with_summary-IsPaired _ _ (
          spliced-IsPaired (middle_length rest) _ rest
            (compact_middle-shape _ _ (take (middle_length rest) rest))
            (IsPaired-rest a b rest h p))),
  )

  pub shortened-IsConversation :
      (i : ℕ) (tc : TokenCalibration) (b : Option BudgetUse) (rc : ReadCache) (ms : List Message)
      → IsConversation ms
      → IsConversation (compact_messages ratio visit tc b rc (rolling_compact ms i)).0
  unfolding compact_messages
  shortened-IsConversation i tc b rc ms h = by_test _
    where
      short : List Message
      short = rolling_compact ms i

      by_test :
          (over : Bool)
          → IsConversation (if over then (short, rc) else compact_all ratio visit rc short).0
      by_test true = rolling_compact-IsConversation ms i h
      by_test false = compact_all-IsConversation rc short (rolling_compact-IsConversation ms i h)
