-- ===== src/Tools/EditFiles/Kept.antt =====
-- What calls of Edit and MultiEdit leave as it is, and when an edit has to wait for another Read.
use squad.Base.{
  Result, ok, err, ℕ, String, List, [], ◌∷◌, true, Option, none, some, ◌≡◌, refl, sym, subst, ◌⊎◌,
  inl, inr, arith, Bool-cases,
}
use squad.Base.Text.{◌==◌, eq_iff}
use squad.Base.Chars.{Chars}
use squad.Base.Dict.{lookup, lookup-insert}
use squad.Skill.Stack.{FilePath}
use squad.Tools.AsciiGuard.{KeepsAscii}
use squad.Tools.MultiEdit.{Modes}
use squad.Tools.Paths.Below.{Below}
use squad.Tools.EditFiles.{
  File, Host, Workspace, ToolError, Reply, put_file, Call, run_call, after_call, run_calls,
}
use squad.Tools.EditFiles.Written.{run_call-Wrote}

-- A file of the working directory, by the string that names it.
abbrev pub IsInTree : Host → FilePath → String → Type 0
IsInTree host dir file = (abs : FilePath) × Below dir abs × (host.name abs ≡ file)

-- A file that is there afterwards exactly if it was before, with no more of any character outside
-- ASCII.
pub data FileKept : Option File → Option File → Type 0 where
  absent : FileKept none none
  kept : {f g : File} → KeepsAscii f.content g.content → FileKept (some f) (some g)

FileKept-refl : (m : Option File) → FileKept m m
FileKept-refl none = absent
FileKept-refl (some f) = kept (λ r lt. omega arith)

FileKept-trans : {a b c : Option File} → FileKept a b → FileKept b c → FileKept a c
FileKept-trans absent k = k
FileKept-trans (kept p) (kept q) = kept (λ r lt. let x = p r lt in let y = q r lt in omega arith)

module _ (host : Host) (modes : Modes) where
  lookup-put :
      (now : ℕ) (file other : String) (text : Chars) (ws : Workspace)
      → ((file ≡ other)
          × (lookup other (put_file now file text ws).disk
              ≡ some (record { content = text; mod_time = now })))
        ⊎ (lookup other (put_file now file text ws).disk ≡ lookup other ws.disk)
  lookup-put now file other text ws = elim (Bool-cases (file == other)) [
    | inl e ↦ inl ((eq_iff file other).0 e, rw (lookup-insert file other _ ws.disk) (rw e refl))
    | inr e ↦ inr (rw (lookup-insert file other _ ws.disk) (rw e refl))
  ]

  after-FileKept :
      (now : ℕ) (call : Call) (ws : Workspace) (file : String)
      → modes.ascii_only ≡ true
      → FileKept
          (lookup file ws.disk)
          (lookup file (after_call ws (run_call host modes now call ws)).disk)
  unfolding after_call lookup
  after-FileKept now call ws file on = settled (run_call host modes now call ws) refl
    where
      settled :
          (m : Result ToolError (Reply × Workspace))
          → run_call host modes now call ws ≡ m
          → FileKept (lookup file ws.disk) (lookup file (after_call ws m).disk)
      settled (err e) h = FileKept-refl (lookup file ws.disk)
      settled (ok (reply, after)) h =
          let (written, before, (abs, resolved, named, tracked, found), text, put, keeps) =
            run_call-Wrote host modes now call ws after reply h in
          elim (lookup-put now written file text ws) [
            | inl (same, there) ↦
                rw (sym put, there)
                  (rw (subst (λ n. lookup n ws.disk ≡ some before) same found) (kept (keeps on)))
            | inr other ↦ rw (sym put, other) (FileKept-refl (lookup file ws.disk))
          ]

  -- In ASCII-only mode, whatever calls of Edit and MultiEdit are made, and when: the same files are
  -- there, and none has more of any character outside ASCII than before.
  pub run_calls-FileKept :
      (calls : List (ℕ × Call)) (ws : Workspace) (file : String)
      → modes.ascii_only ≡ true
      → FileKept (lookup file ws.disk) (lookup file (run_calls host modes calls ws).disk)
  unfolding run_calls
  run_calls-FileKept [] ws file on = FileKept-refl (lookup file ws.disk)
  run_calls-FileKept ((now, call) ∷ calls) ws file on =
      FileKept-trans (after-FileKept now call ws file on)
        (run_calls-FileKept calls (after_call ws (run_call host modes now call ws)) file on)
