-- ===== src/Tools/CmdSafety/Segments.antt =====
-- `ContainsReadCommand` of tools/cmdsafety.go looks at each part of a compound command.
use squad.Base.{◌≡◌, refl, ap, ◌∙◌, List, [], ◌∷◌, ◌++◌, ◌||◌, arith}
use squad.Base.Chars.{Chars}
use squad.Tools.CmdSafety.{normalise, segments, any_read, contains_read_command}

normalise_at : (a b : Chars) → normalise (a ++ b';' ∷ b) ≡ normalise a ++ b';' ∷ normalise b
unfolding normalise
normalise_at [] [] = refl
normalise_at [] (d ∷ b) = ground arith
normalise_at (c ∷ []) b = ground (arith, normalise_at [] b)
normalise_at (c ∷ d ∷ a) b = ground (arith, normalise_at a b, normalise_at (d ∷ a) b)

segments_at : (cur a b : Chars) → segments cur (a ++ b';' ∷ b) ≡ segments cur a ++ segments [] b
unfolding segments
segments_at cur [] b = refl
segments_at cur (c ∷ a) b = ground (arith, segments_at [] a b, segments_at (cur ++ c ∷ []) a b)

any_read-append : (xs ys : List Chars) → any_read (xs ++ ys) ≡ (any_read xs || any_read ys)
unfolding any_read
any_read-append [] ys = refl
any_read-append (x ∷ xs) ys = ground (arith, any_read-append xs ys)

-- A compound command reads exactly if a part of it does, whatever stands before the semicolon.
pub contains_read_command_at :
    (a b : Chars)
    → contains_read_command (a ++ b';' ∷ b) ≡ (contains_read_command a || contains_read_command b)
unfolding contains_read_command
contains_read_command_at a b =
    ap (λ s. any_read (segments [] s)) (normalise_at a b)
    ∙ ap any_read (segments_at [] (normalise a) (normalise b))
    ∙ any_read-append (segments [] (normalise a)) (segments [] (normalise b))
