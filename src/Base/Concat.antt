-- ===== src/Base/Concat.antt =====
-- Concatenation of texts, as in f-strings.
use Prim.Native.String.{String, ◌++◌ as append}

infixr 65 ◌++◌
abbrev pub ◌++◌ : String → String → String
s ++ t = append s t
