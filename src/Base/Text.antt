-- ===== src/Base/Text.antt =====
-- Native strings, compared whole; their code points where the program walks them.
use Prim.Native.Char.{code}
use squad.Base.{ℕ, String, List, [], ◌∷◌}
pub use text.Mathlib.Text.{◌==◌}
pub use text.Mathlib.TextEquality.{eq_iff}
pub use text.Mathlib.TextPositions.{eq_refl}

abbrev pub codes : String → List ℕ
codes String.[] = []
codes (String.◌∷◌ c s) = code c ∷ codes s
