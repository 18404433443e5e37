-- ===== src/Prelude/Texts.antt =====
-- Texts: equality, the truth value that Python gives to an optional text, and the code points of
-- a text with the ASCII part of `upper` and `lower`.
use Prim.Native.Char.{code}
use Prim.Native.String.{String}
use Prim.Native.Nat.{ℕ, ◌+◌, ◌-◌}
use mathlib.Core.Bool.{Bool, true, false, not, ◌&&◌, ◌||◌}
use mathlib.Core.Option.{Option, none, some}
use mathlib.Core.List.{List, [], ◌∷◌, map}
use n_quark.Prelude.Tests.{leb, ◌==◌, if◌then◌else◌}
pub use Prim.Native.String.{◌++◌ as append}
pub use text.Mathlib.Text.{◌==◌ as str_eq}
pub use text.Mathlib.TextEquality.{eq_iff}
pub use text.Mathlib.TextPositions.{eq_refl}

-- `bool(t)` for a text that may be None.
abbrev pub truthy : Option String → Bool
truthy none = false
truthy (some t) = not (str_eq t "")

-- `t or ""`
abbrev pub or_empty : Option String → String
or_empty none = ""
or_empty (some t) = t

-- `a == b` for texts that may be None.
abbrev pub opt_str_eq : Option String → Option String → Bool
opt_str_eq none none = true
opt_str_eq (some a) (some b) = str_eq a b
opt_str_eq _ _ = false

-- `a or b` for texts that may be None.
abbrev pub or_text : Option String → Option String → Option String
or_text none b = b
or_text (some a) b = elim (str_eq a "") [ true ↦ b | false ↦ some a ]

-- `t in texts`
abbrev pub member : String → List String → Bool
member t [] = false
member t (x ∷ xs) = str_eq t x || member t xs

abbrev pub codes : String → List ℕ
codes String.[] = []
codes (String.◌∷◌ c s) = code c ∷ codes s

unfoldable pub upper : ℕ → ℕ
upper c = if leb b'a' c && leb c b'z' then c - 32 else c

unfoldable pub lower : ℕ → ℕ
lower c = if leb b'A' c && leb c b'Z' then c + 32 else c

abbrev pub same_codes : List ℕ → List ℕ → Bool
same_codes [] [] = true
same_codes (a ∷ as') (b ∷ bs) = a == b && same_codes as' bs
same_codes _ _ = false

-- `t.lower() in texts`
abbrev pub lowered_member : String → List String → Bool
lowered_member t [] = false
lowered_member t (x ∷ xs) = same_codes (map lower (codes t)) (codes x) || lowered_member t xs
