-- ===== src/Tools/ToolLoop/Stops.antt =====
-- An agent that neither edits nor reads anything new is stopped, soon after its deadline.
use squad.Base.{
  ℕ, suc, ◌+◌, ◌≡◌, refl, sym, subst, ◌∙◌, ◌⊎◌, inl, inr, String, List, [], ◌∷◌, Bool, true, false,
  Option, none, some, Result, ok, err, leb, ltb, Bool-cases, arith,
}
use squad.Base.Chars.{Chars}
use squad.Base.All.{All, All-append}
use squad.Base.Dict.{lookup, Dict}
use squad.Tools.LoopDetect.{ToolCall, stuck}
use squad.Tools.Messages.{Message, extract_tool_results}
use squad.Tools.EditEnforcer.{EditEnforcer, GraceState, check_edit_deadline, handle_edit_deadline}
use squad.Tools.EditEnforcer.Deadline.{
  NoEdits, Waits, later, check_edit_deadline-NoEdits, Waits-before, Waits-handle_edit_deadline,
  confirm_edit-NoEdits, Waits-grace,
}
use squad.Tools.ReadCache.{ReadCache, size_of, reset_streak}
use squad.Tools.Dispatch.Denied.{execute_each-keeps}
use squad.Tools.Dispatch.{Handler, Context, Place, execute_tool_calls, execute_each}
use squad.Tools.ToolLoop.{
  Env, Loop, Turn, stop, go, Choice, InfoValue, update_repeat, exceeded, reset_cache_streak_on_edit,
  resets_streak,
}
use squad.Tools.ToolLoop.Iterate.{
  with_results, set_world, add_usage, extract_token_usage, merge_choices, after_execution,
  track_post_execution, context_of, execute, after_deadline, on_deadline, on_calls, on_merged,
  on_response,
}

-- The variables that decide when the loop is stopped.
abbrev pub WaitsFor : {W : Type 0} → ℕ → Loop W → Type 0
WaitsFor k s = Waits k s.edit_enforcer s.grace

abbrev pub GoesOn : {W : Type 0} → ℕ → Turn W → Type 0
GoesOn k (stop e t) = Unit
GoesOn k (go t) = WaitsFor k t

size-reset_cache_streak_on_edit :
    (cs : List ToolCall) (results : Dict Chars) (rc : ReadCache)
    → size_of (reset_cache_streak_on_edit cs results rc) ≡ size_of rc
unfolding reset_cache_streak_on_edit
size-reset_cache_streak_on_edit cs results rc = elim (Bool-cases (resets_streak cs results)) [
  | inl e ↦ rw e (unfold size_of reset_streak in refl)
  | inr e ↦ rw e refl
]

not_less : (n m : ℕ) → m ≡ n → ltb n m ≡ false
not_less n m e = ground arith

module _ {W : Type 0} (env : Env W) where
  -- The model calls tools, and none that writes.
  abbrev pub NeverEdits : Type 0
  NeverEdits =
      (at : Option ℕ) (ms : List Message) (w : W) (chs : List Choice)
      → (env.generate at ms w).0 ≡ ok chs
      → All (λ (ch : Choice). NoEdits ch.tool_calls) chs

  -- No tool puts a file into the read cache that was not there.
  abbrev pub ReadsNothingNew : Type 0
  ReadsNothingNew =
      (name : String) (h : Handler W)
      → lookup name env.handlers ≡ some h
      → (ctx : Context) (args : Chars) (p : Place W)
      → size_of (h ctx args p).1.cache ≡ size_of p.cache

  size-execute_each :
      ReadsNothingNew
      → (ctx : Context) (cs : List ToolCall) (p : Place W)
      → size_of (execute_each env.handlers env.policy ctx cs p).1.cache ≡ size_of p.cache
  size-execute_each nothing_new ctx cs p =
      execute_each-keeps env.handlers env.policy (λ q. size_of q.cache ≡ size_of p.cache)
        (λ name h e c args q open_ same. nothing_new name h e c args q ∙ same) ctx cs p refl

  after_execution-waits :
      (k i n : ℕ) (cs : List ToolCall) (s : Loop W)
      → WaitsFor k s
      → GoesOn k (after_execution env i n cs s)
  unfolding after_execution
  after_execution-waits k i n cs s h = elim (Bool-cases (stuck s.detector)) [
    | inl e ↦ rw e tt
    | inr e ↦ rw e (elim (Bool-cases (env.meter.budget_exceeded s.place.world)) [
      | inl o ↦ rw o tt
      | inr o ↦ rw o h
    ])
  ]

  track-waits :
      (k n : ℕ) (cs : List ToolCall) (s : Loop W)
      → NoEdits cs
      → size_of s.place.cache ≡ n
      → WaitsFor k s
      → WaitsFor k (track_post_execution env n cs s)
  unfolding track_post_execution
  track-waits k n cs s none_edit size h =
      let results = extract_tool_results s.messages in
      let same = confirm_edit-NoEdits s.edit_enforcer cs results none_edit in
      let old =
        not_less n (size_of (reset_cache_streak_on_edit cs results s.place.cache))
          (size-reset_cache_streak_on_edit cs results s.place.cache ∙ size) in
      rw (old, same) (Waits-grace k s.edit_enforcer s.grace cs results h)

  execute-waits :
      (k i : ℕ) (t : Chars) (cs : List ToolCall) (s : Loop W)
      → ReadsNothingNew
      → NoEdits cs
      → WaitsFor k s
      → GoesOn k (execute env i t cs s)
  unfolding execute with_results execute_tool_calls
  execute-waits k i t cs s nothing_new none_edit h =
      let n = size_of s.place.cache in
      let s' = with_results env i t cs s in
      after_execution-waits k i n cs (track_post_execution env n cs s') (
        track-waits k n cs s' none_edit
          (size-execute_each nothing_new (context_of env i s) cs s.place) h)

  after_deadline-waits :
      (k i : ℕ) (t : Chars) (cs : List ToolCall) (s : Loop W) (r : GraceState × Bool × List Message)
      → ReadsNothingNew
      → NoEdits cs
      → (r.1 ≡ true) ⊎ Waits k s.edit_enforcer r.0
      → GoesOn k (after_deadline env i t cs s r)
  unfolding after_deadline
  after_deadline-waits k i t cs s (g, true, ms) nothing_new none_edit h = tt
  after_deadline-waits k i t cs s (g, false, ms) nothing_new none_edit (inl e) = absurd (cc)
  after_deadline-waits k i t cs s (g, false, ms) nothing_new none_edit (inr h) =
      execute-waits k i t cs (record s { grace = g; messages = ms }) nothing_new none_edit h

  on_deadline-waits :
      (k i : ℕ) (t : Chars) (cs : List ToolCall) (s : Loop W) (e : EditEnforcer)
      (r : Option EditEnforcer × Bool × Bool)
      → ReadsNothingNew
      → NoEdits cs
      → r.0 ≡ some (later e)
      → r.1 ≡ leb e.deadline (e.read_only_iters + 1)
      → Waits (suc k) (some e) s.grace
      → GoesOn k (on_deadline env i t cs s r)
  unfolding on_deadline
  on_deadline-waits k i t cs s e (n, true, m) nothing_new none_edit next hit h =
      after_deadline-waits k i t cs (record s { edit_enforcer = n; deadline_marked = m })
        (handle_edit_deadline s.grace s.messages) nothing_new none_edit
        (subst
          (λ o.
            ((handle_edit_deadline s.grace s.messages).1 ≡ true)
            ⊎ Waits k o (handle_edit_deadline s.grace s.messages).0)
          (sym next) (Waits-handle_edit_deadline k e s.grace s.messages (sym hit) h))
  on_deadline-waits k i t cs s e (n, false, m) nothing_new none_edit next hit h =
      execute-waits k i t cs (record s { edit_enforcer = n; deadline_marked = m }) nothing_new
        none_edit (subst (λ o. Waits k o s.grace) (sym next) (Waits-before k e s.grace (sym hit) h))

  on_calls-waits :
      (k i : ℕ) (t : Chars) (cs : List ToolCall) (s : Loop W) (o : Option EditEnforcer)
      → s.edit_enforcer ≡ o
      → ReadsNothingNew
      → NoEdits cs
      → Waits (suc k) o s.grace
      → GoesOn k (on_calls env i t cs s)
  unfolding on_calls
  on_calls-waits k i t cs s none at nothing_new none_edit h = absurd h
  on_calls-waits k i t cs s (some e) at nothing_new none_edit h =
      elim (Bool-cases (exceeded (update_repeat cs s.repeat))) [
        | inl over ↦ rw over tt
        | inr more ↦ rw more (
            let checked = check_edit_deadline-NoEdits e cs s.deadline_marked h.0 none_edit in
            on_deadline-waits k i t cs (record s { repeat = update_repeat cs s.repeat }) e
              (check_edit_deadline s.edit_enforcer cs s.deadline_marked) nothing_new none_edit
              (subst (λ x. (check_edit_deadline x cs s.deadline_marked).0 ≡ some (later e)) (sym at)
                checked.0)
              (subst
                (λ x.
                  (check_edit_deadline x cs s.deadline_marked).1
                  ≡ leb e.deadline (e.read_only_iters + 1))
                (sym at) checked.1)
              h)
      ]

  on_merged-waits :
      (k i : ℕ) (r : Chars × List ToolCall × Loop W)
      → ReadsNothingNew
      → NoEdits r.1
      → WaitsFor (suc k) r.2
      → GoesOn k (on_merged env i r)
  unfolding on_merged
  on_merged-waits k i (t, [], s) nothing_new none_edit h = tt
  on_merged-waits k i (t, c ∷ cs, s) nothing_new none_edit h =
      on_calls-waits k i t (c ∷ cs) _ s.edit_enforcer refl nothing_new none_edit h

  extract_token_usage-waits :
      (k : ℕ) (gi : Option (Dict InfoValue)) (s : Loop W)
      → WaitsFor k s
      → WaitsFor k (extract_token_usage env gi s)
  unfolding extract_token_usage add_usage
  extract_token_usage-waits k none s h = h
  extract_token_usage-waits k (some gi) s h = elim (Bool-cases env.meter.is_set) [
    | inl e ↦ rw e h
    | inr e ↦ rw e h
  ]

  merge_choices-waits :
      (k : ℕ) (chs : List Choice) (t : Chars) (cs : List ToolCall) (s : Loop W)
      → All (λ (ch : Choice). NoEdits ch.tool_calls) chs
      → NoEdits cs
      → WaitsFor k s
      → NoEdits (merge_choices env chs t cs s).1 × WaitsFor k (merge_choices env chs t cs s).2
  unfolding merge_choices
  merge_choices-waits k [] t cs s all none_edit h = (none_edit, h)
  merge_choices-waits k (ch ∷ chs) t cs s all none_edit h =
      merge_choices-waits k chs _ _ _ all.1 (All-append _ cs ch.tool_calls none_edit all.0)
        (extract_token_usage-waits k ch.generation_info s h)

  pub on_response-waits :
      (k i : ℕ) (s : Loop W) (r : Result Chars (List Choice))
      → ReadsNothingNew
      → ((chs : List Choice) → r ≡ ok chs → All (λ (ch : Choice). NoEdits ch.tool_calls) chs)
      → WaitsFor (suc k) s
      → GoesOn k (on_response env i s r)
  unfolding on_response set_world
  on_response-waits k i s (err e) nothing_new never h = tt
  on_response-waits k i s (ok []) nothing_new never h = tt
  on_response-waits k i s (ok (ch ∷ chs)) nothing_new never h =
      let merged =
        merge_choices-waits (suc k) (ch ∷ chs) [] []
          (set_world env (env.meter.increment_iterations s.place.world) s) (never (ch ∷ chs) refl)
          tt h in
      on_merged-waits k i _ nothing_new merged.0 merged.1
