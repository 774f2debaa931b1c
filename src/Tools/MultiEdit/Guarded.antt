-- ===== src/Tools/MultiEdit/Guarded.antt =====
-- What a run in ASCII-only mode can do to a file through tools/multiedit.go.
use squad.Base.{
  Option, refl, sym, inl, inr, [], zero, suc, false, some, Bool-cases, drop, length, ◌∷◌, ◌+◌, none,
  arith, true, Bool, ◌≡◌, ◌≤◌, List, ℕ,
}
use squad.Base.Chars.{Chars, has_prefix}
use squad.Base.Multiset.{nat_eq, count, count-append}
use squad.Tools.AsciiGuard.{KeepsAscii, validate_ascii_only_iff}
use squad.Tools.MultiEdit.{
  FailedEdit, MultiEditOperation, Modes, Progress, replace_first, replace_all_from, apply_edit,
  edit_error, edit_guard_error, EditError, settle_edit, edit_step, edits_from, multi_edit, written,
  finish,
}

-- A text that begins with `p` has the characters of `p` and of what follows.
count-prefix :
    (r : ℕ) (s p : Chars)
    → has_prefix s p ≡ true
    → count r s ≡ count r p + count r (drop (length p) s)
unfolding count has_prefix
count-prefix r s [] h = omega arith
count-prefix r [] (d ∷ p) h = cc
count-prefix r (c ∷ s) (d ∷ p) h = ground (arith, count-prefix r s p)

count-cons : (r c : ℕ) (s t : Chars) → count r s ≤ count r t → count r (c ∷ s) ≤ count r (c ∷ t)
unfolding count
count-cons r c s t h = ground arith

module _ (r : ℕ) (old new : Chars) (fewer : count r new ≤ count r old) where
  count-replace_first : (s : Chars) → count r (replace_first old new s) ≤ count r s
  unfolding replace_first count
  count-replace_first [] = omega arith
  count-replace_first (c ∷ s) = elim (Bool-cases (has_prefix (c ∷ s) old)) [
    | inl e ↦ rw e (
        omega (arith, count-append r new (drop (length old) (c ∷ s)), count-prefix r (c ∷ s) old e))
    | inr e ↦ rw e (ground (arith, count-replace_first s))
  ]

  count-replace_all : (f : ℕ) (s : Chars) → count r (replace_all_from f old new s) ≤ count r s
  unfolding replace_all_from
  count-replace_all zero s = omega arith
  count-replace_all (suc f) [] = omega arith
  count-replace_all (suc f) (c ∷ s) = elim (Bool-cases (has_prefix (c ∷ s) old)) [
    | inl e ↦ rw e (
        omega (
          arith,
          count-append r new (replace_all_from f old new (drop (length old) (c ∷ s))),
          count-prefix r (c ∷ s) old e,
          count-replace_all f (drop (length old) (c ∷ s)),
        ))
    | inr e ↦ rw e (count-cons r c _ s (count-replace_all f s))
  ]

  pub count-apply_edit :
      (all : Bool) (s : Chars)
      → count r (apply_edit (record { old = old; new = new; replace_all = all }) s) ≤ count r s
  unfolding apply_edit
  count-apply_edit true s = count-replace_all (length s) s
  count-apply_edit false s = count-replace_first s

-- In ASCII-only mode the guards let no edit pass that adds characters outside ASCII.
pub guard_keeps :
    (modes : Modes) (old new : Chars)
    → modes.ascii_only ≡ true
    → edit_guard_error modes old new ≡ none
    → KeepsAscii old new
unfolding edit_guard_error
guard_keeps modes old new on h = (validate_ascii_only_iff old new).0 (ground arith)

passed :
    (modes : Modes) (e : MultiEditOperation) (s : Chars)
    → modes.ascii_only ≡ true
    → edit_error modes e s ≡ none
    → KeepsAscii e.old e.new
unfolding edit_error
passed modes e s on h = guard_keeps modes e.old e.new on (ground arith)

settle_edit_keeps :
    (r i : ℕ) (e : MultiEditOperation) (p : Progress) (why : Option EditError)
    → (why ≡ none → count r e.new ≤ count r e.old)
    → count r (settle_edit i e p why).content ≤ count r p.content
unfolding settle_edit
settle_edit_keeps r i e p none fewer =
    count-apply_edit r e.old e.new (fewer refl) e.replace_all p.content
settle_edit_keeps r i e p (some why) fewer = omega arith

edit_step_keeps :
    (modes : Modes) (i : ℕ) (e : MultiEditOperation) (p : Progress)
    → modes.ascii_only ≡ true
    → KeepsAscii p.content (edit_step modes i e p).content
unfolding edit_step
edit_step_keeps modes i e p on r lt =
    settle_edit_keeps r i e p (edit_error modes e p.content)
      (λ pass. passed modes e p.content on pass r lt)

edits_from_keeps :
    (modes : Modes) (i : ℕ) (es : List MultiEditOperation) (p : Progress)
    → modes.ascii_only ≡ true
    → KeepsAscii p.content (edits_from modes i es p).content
unfolding edits_from
edits_from_keeps modes i [] p on r lt = omega arith
edits_from_keeps modes i (e ∷ es) p on r lt =
    let first = edit_step_keeps modes i e p on r lt in
    let later = edits_from_keeps modes (suc i) es (edit_step modes i e p) on r lt in omega arith

finish-written :
    (content after : Chars) (k n : ℕ) (failures failed : List FailedEdit)
    → finish content k failures ≡ written after n failed
    → content ≡ after
unfolding finish
finish-written content after zero n failures failed h = absurd (cc)
finish-written content after (suc m) n failures failed h = cc

-- In ASCII-only mode the tool never writes a file with more of any character outside ASCII than the
-- file had, whatever edits are asked for.
pub multi_edit_keeps :
    (modes : Modes) (es : List MultiEditOperation) (content : Chars) (after : Chars) (n : ℕ)
    (failed : List FailedEdit)
    → modes.ascii_only ≡ true
    → multi_edit modes es content ≡ written after n failed
    → KeepsAscii content after
unfolding multi_edit
multi_edit_keeps modes [] content after n failed on h r lt = absurd (cc)
multi_edit_keeps modes (e ∷ es) content after n failed on h r lt =
    let start : Progress = record { content = content; applied = 0; failed = [] } in
    let kept = edits_from_keeps modes 0 (e ∷ es) start on r lt in
    rw (sym (finish-written _ after _ n _ failed h)) kept
