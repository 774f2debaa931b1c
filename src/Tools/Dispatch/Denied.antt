-- ===== src/Tools/Dispatch/Denied.antt =====
-- Calls that the rules of a run deny: their handlers are not called.
use squad.Base.{
  ◌≡◌, refl, String, List, [], ◌∷◌, true, false, Option, none, some, inl, inr, Bool-cases,
}
use squad.Base.Chars.{Chars}
use squad.Base.Dict.{Dict, lookup}
use squad.Tools.LoopDetect.{ToolCall, FunctionCall}
use squad.Tools.Messages.{is_mutating_tool}
use squad.Tools.Dispatch.{
  Handler, Policy, Context, Place, denial, finish_call, run_handler, call_handler, call_function,
  execute_tool_call, execute_each,
}

module _ {W : Type 0} (handlers : Dict (Handler W)) (policy : Policy W) where
  -- In read-only mode a tool that writes is denied; and so it is while a plan waits for approval.
  pub read_only-denies :
      (w : W) (name : String)
      → policy.read_only ≡ true
      → denial handlers policy w name ≡ none
      → is_mutating_tool name ≡ false
  unfolding denial
  read_only-denies w name ro h = elim (Bool-cases (policy.allows_tool w name)) [
    | inl a ↦ elim (Bool-cases (is_mutating_tool name)) [
      | inl m ↦ absurd (refused (some-ne-none _ (rw (a, ro, m) at h)))
      | inr m ↦ m
    ]
    | inr a ↦ absurd (some-ne-none _ (rw a at h))
  ]
    where
      some-ne-none : (c : Chars) → ◌≡◌ {A = Option Chars} (some c) none → ⊥
      some-ne-none c e = cc

      refused : ⊥ → ⊥
      refused x = x

module _ {W : Type 0} (handlers : Dict (Handler W)) (policy : Policy W) (P : Place W → Type 0)
    (called : (name : String) (h : Handler W)
      → lookup name handlers ≡ some h
      → (ctx : Context) (args : Chars) (p : Place W) → denial handlers policy p.world name ≡ none
      → P p
      → P (h ctx args p).1) where
  run_handler-keeps :
      (ctx : Context) (id : String) (f : FunctionCall) (h : Handler W) (p : Place W)
      (o : Option Chars)
      → lookup f.name handlers ≡ some h
      → denial handlers policy p.world f.name ≡ o
      → P p
      → P (run_handler handlers policy ctx id f h p o).1
  unfolding run_handler finish_call
  run_handler-keeps ctx id f h p (some t) e d k = k
  run_handler-keeps ctx id f h p none e d k = called f.name h e ctx f.arguments p d k

  call_handler-keeps :
      (ctx : Context) (id : String) (f : FunctionCall) (h : Option (Handler W)) (p : Place W)
      → lookup f.name handlers ≡ h
      → P p
      → P (call_handler handlers policy ctx id f h p).1
  unfolding call_handler
  call_handler-keeps ctx id f none p e k = k
  call_handler-keeps ctx id f (some h) p e k =
      run_handler-keeps ctx id f h p (denial handlers policy p.world f.name) e refl k

  execute_tool_call-keeps :
      (ctx : Context) (id : String) (f : Option FunctionCall) (p : Place W)
      → P p
      → P (call_function handlers policy ctx id f p).1
  unfolding call_function
  execute_tool_call-keeps ctx id none p k = k
  execute_tool_call-keeps ctx id (some f) p k =
      call_handler-keeps ctx id f (lookup f.name handlers) p refl k

  -- What each handler that is not denied keeps, a batch of calls keeps.
  pub execute_each-keeps :
      (ctx : Context) (cs : List ToolCall) (p : Place W)
      → P p
      → P (execute_each handlers policy ctx cs p).1
  unfolding execute_each execute_tool_call
  execute_each-keeps ctx [] p k = k
  execute_each-keeps ctx (c ∷ cs) p k =
      execute_each-keeps ctx cs (execute_tool_call handlers policy ctx c p).1
        (execute_tool_call-keeps ctx c.id c.function_call p k)
