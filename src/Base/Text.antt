-- ===== src/Base/Text.antt =====
-- Text that the program takes apart, as code points. `lower` and `upper` are Python's on ASCII.
use Prim.Native.Nat.{ℕ, ◌+◌, ◌-◌}
use Prim.Native.Char.{code}
use Prim.Native.String.{String}
use mathlib.Core.Path.{◌≡◌, refl}
use mathlib.Core.Bool.{Bool, true, false, ◌&&◌}
use mathlib.Core.List.{List, [], ◌∷◌, ◌++◌, map}
use native.Mathlib.Omega.{arith}
use polymarket_event_quant.Base.Tests.{leb, ◌==◌, if◌then◌else◌}

abbrev pub Text : Type 0
Text = List ℕ

abbrev pub codes : String → Text
codes String.[] = []
codes (String.◌∷◌ c s) = code c ∷ codes s

unfoldable pub to_lower : ℕ → ℕ
to_lower c = if leb b'A' c && leb c b'Z' then c + 32 else c

unfoldable pub to_upper : ℕ → ℕ
to_upper c = if leb b'a' c && leb c b'z' then c - 32 else c

abbrev pub lower : Text → Text
lower t = map to_lower t

abbrev pub upper : Text → Text
upper t = map to_upper t

abbrev pub eq_text : Text → Text → Bool
eq_text [] [] = true
eq_text (c ∷ s) (d ∷ t) = c == d && eq_text s t
eq_text _ _ = false

-- `t.startswith(p)` and `t.removeprefix(p)`
abbrev pub starts_with : Text → Text → Bool
starts_with [] t = true
starts_with (c ∷ p) [] = false
starts_with (c ∷ p) (d ∷ t) = c == d && starts_with p t

abbrev pub remove_prefix : Text → Text → Text
remove_prefix [] t = t
remove_prefix (c ∷ p) [] = []
remove_prefix (c ∷ p) (d ∷ t) = if c == d then remove_prefix p t else d ∷ t

-- `p in t`
abbrev pub contains : Text → Text → Bool
contains p [] = starts_with p []
contains p (c ∷ t) = if starts_with p (c ∷ t) then true else contains p t

pub starts_with-append : (p t : Text) → starts_with p (p ++ t) ≡ true
starts_with-append [] t = refl
starts_with-append (c ∷ p) t = ground (arith, starts_with-append p t)

pub remove_prefix-append : (p t : Text) → remove_prefix p (p ++ t) ≡ t
remove_prefix-append [] t = refl
remove_prefix-append (c ∷ p) t = ground (arith, remove_prefix-append p t)

pub to_lower_idem : (c : ℕ) → to_lower (to_lower c) ≡ to_lower c
unfolding to_lower
to_lower_idem c = ground arith

pub lower_idem : (t : Text) → lower (lower t) ≡ lower t
lower_idem [] = refl
lower_idem (c ∷ t) = ground (arith, to_lower_idem c, lower_idem t)
