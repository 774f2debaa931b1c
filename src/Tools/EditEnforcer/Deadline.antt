-- ===== src/Tools/EditEnforcer/Deadline.antt =====
-- How long an agent that does not edit may go on: until the deadline, and through the grace period.
use squad.Base.{
  ℕ, suc, ◌+◌, ◌-◌, ◌≤◌, ◌<◌, ◌≡◌, refl, ◌⊎◌, inl, inr, String, List, [], ◌∷◌, Bool, true, false,
  Option, none, some, leb, leb→le, Bool-cases, arith,
}
use squad.Base.Chars.{Chars}
use squad.Base.Dict.{Dict}
use squad.Base.All.{All}
use squad.Tools.LoopDetect.{ToolCall}
use squad.Tools.Messages.{
  Message, is_edit_call, edits, call_name, is_mutating_tool, extract_tool_names,
}
use squad.Tools.EditEnforcer.{
  EditEnforcer, GraceState, names_an_edit, check_names, check_edit_deadline, handle_edit_deadline,
  edit_deadline_grace_period, confirms, confirm_edit, try_reenable_reads, check_edit_failure,
}

-- No call is one of a tool that writes.
abbrev pub NoEdits : List ToolCall → Type 0
NoEdits cs = All (λ (c : ToolCall). is_edit_call c ≡ false) cs

-- No edit was seen, and the agent is stopped at the latest in its `k`-th iteration from here.
abbrev pub Waits : ℕ → Option EditEnforcer → GraceState → Type 0
Waits k none g = ⊥
Waits k (some e) g =
    (e.edit_seen ≡ false)
    × (((g.reached ≡ false)
          × (e.read_only_iters < e.deadline)
          × (e.deadline + edit_deadline_grace_period ≤ k + e.read_only_iters))
        ⊎ ((g.reached ≡ true)
            × (e.deadline ≤ e.read_only_iters)
            × (g.remaining ≤ k)
            × (0 < g.remaining)))

pub Waits-pos : (e : Option EditEnforcer) (g : GraceState) → Waits 0 e g → ⊥
Waits-pos none g h = h
Waits-pos (some e) g (unseen, inl (off, before, within)) = omega arith
Waits-pos (some e) g (unseen, inr (on, after, within, left)) = omega arith

names_with :
    (o : Option String) (names : List String)
    → edits o ≡ false
    → names_an_edit names ≡ false
    → names_an_edit (elim o [ none ↦ names | some name ↦ name ∷ names ]) ≡ false
unfolding names_an_edit edits is_mutating_tool
names_with none names e h = h
names_with (some name) names e h = ground arith

names_an_edit-extract_tool_names :
    (cs : List ToolCall) → NoEdits cs → names_an_edit (extract_tool_names cs) ≡ false
unfolding extract_tool_names
names_an_edit-extract_tool_names [] h = unfold names_an_edit in refl
names_an_edit-extract_tool_names (c ∷ cs) h =
    names_with (call_name c) (extract_tool_names cs) (unfold is_edit_call in h.0)
      (names_an_edit-extract_tool_names cs h.1)

-- One more read-only iteration.
abbrev pub later : EditEnforcer → EditEnforcer
later e = record e { read_only_iters = e.read_only_iters + 1 }

pub check_edit_deadline-NoEdits :
    (e : EditEnforcer) (cs : List ToolCall) (marked : Bool)
    → e.edit_seen ≡ false
    → NoEdits cs
    → ((check_edit_deadline (some e) cs marked).0 ≡ some (later e))
      × ((check_edit_deadline (some e) cs marked).1 ≡ leb e.deadline (e.read_only_iters + 1))
unfolding check_edit_deadline check_names
check_edit_deadline-NoEdits e cs marked unseen none_edit =
    let named = names_an_edit-extract_tool_names cs none_edit in rw (unseen, named) (refl, refl)

-- Before the deadline the time left shrinks.
pub Waits-before :
    (k : ℕ) (e : EditEnforcer) (g : GraceState)
    → leb e.deadline (e.read_only_iters + 1) ≡ false
    → Waits (suc k) (some e) g
    → Waits k (some (later e)) g
Waits-before k e g open_ (unseen, inl (off, before, within)) =
    (unseen, inl (off, ground arith, omega arith))
Waits-before k e g open_ (unseen, inr (on, after, within, left)) = absurd (ground arith)

-- At the deadline the grace period begins, and then it shrinks until the agent is stopped.
pub Waits-handle_edit_deadline :
    (k : ℕ) (e : EditEnforcer) (g : GraceState) (ms : List Message)
    → leb e.deadline (e.read_only_iters + 1) ≡ true
    → Waits (suc k) (some e) g
    → ((handle_edit_deadline g ms).1 ≡ true)
      ⊎ Waits k (some (later e)) (handle_edit_deadline g ms).0
unfolding handle_edit_deadline
Waits-handle_edit_deadline k e g ms hit (unseen, inl (off, before, within)) =
    let reached = leb→le e.deadline (e.read_only_iters + 1) hit in
    rw off (inr (unseen, inr (refl, omega arith, omega arith, omega arith)))
Waits-handle_edit_deadline k e g ms hit (unseen, inr (on, after, within, left)) =
    rw on (elim (Bool-cases (leb (g.remaining - 1) 0)) [
      | inl over ↦ inl over
      | inr more ↦
          let still : 0 < g.remaining - 1 = ground arith in
          inr (unseen, inr (refl, omega arith, omega arith, still))
    ])

confirms-NoEdits :
    (cs : List ToolCall) (results : Dict Chars) → NoEdits cs → confirms cs results ≡ false
unfolding confirms
confirms-NoEdits [] results h = refl
confirms-NoEdits (c ∷ cs) results h = rw (h.0, confirms-NoEdits cs results h.1) refl

-- Calls that do not edit confirm no edit.
pub confirm_edit-NoEdits :
    (e : Option EditEnforcer) (cs : List ToolCall) (results : Dict Chars)
    → NoEdits cs
    → confirm_edit cs results e ≡ e
unfolding confirm_edit
confirm_edit-NoEdits none cs results h = refl
confirm_edit-NoEdits (some e) cs results h = elim (Bool-cases e.edit_seen) [
  | inl seen ↦ rw seen refl
  | inr unseen ↦ rw (unseen, confirms-NoEdits cs results h) refl
]

-- What follows the calls leaves the time that an agent has as it is.
pub Waits-grace :
    (k : ℕ) (e : Option EditEnforcer) (g : GraceState) (cs : List ToolCall) (results : Dict Chars)
    → Waits k e g
    → Waits k e (try_reenable_reads e (check_edit_failure cs results g))
unfolding try_reenable_reads check_edit_failure
Waits-grace k none g cs results h = absurd h
Waits-grace k (some e) g cs results (unseen, inl (off, before, within)) =
    rw (off, unseen) (refl, inl (refl, before, within))
Waits-grace k (some e) g cs results (unseen, inr (on, after, within, left)) =
    rw (on, unseen) (refl, inr (refl, after, within, left))
