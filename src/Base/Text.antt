-- ===== src/Base/Text.antt =====
-- Texts as the code points that the program walks: `lower`, `upper`, `strip`, `in`. Letters outside
-- ASCII have no case here, and the spaces are those of ASCII.
use Prim.Native.Nat.{ℕ, ◌+◌, ◌-◌}
use Prim.Native.Char.{code}
use Prim.Native.String.{String}
use mathlib.Core.Bool.{Bool, true, false, ◌&&◌, ◌||◌}
use mathlib.Core.List.{List, [], ◌∷◌, map, reverse}
use smartwatch_clank.Base.Tests.{leb, ◌==◌, nat_eq, if◌then◌else◌}

unfoldable pub codes : String → List ℕ
codes String.[] = []
codes (String.◌∷◌ c s) = code c ∷ codes s

unfoldable pub lower : List ℕ → List ℕ
lower = map (λ c. if leb b'A' c && leb c b'Z' then c + 32 else c)

unfoldable pub upper : List ℕ → List ℕ
upper = map (λ c. if leb b'a' c && leb c b'z' then c - 32 else c)

-- what `str.strip` takes off, by code point
abbrev pub is_space : ℕ → Bool
is_space c =
    leb 9 c && leb c 13
    || leb 28 c && leb c 32
    || c == 133
    || c == 160
    || c == 5760
    || leb 8192 c && leb c 8202
    || c == 8232
    || c == 8233
    || c == 8239
    || c == 8287
    || c == 12288

unfoldable pub lstrip : List ℕ → List ℕ
lstrip [] = []
lstrip (c ∷ cs) = let rest = lstrip cs in if is_space c then rest else c ∷ cs

unfoldable pub strip : List ℕ → List ℕ
unfolding lstrip
strip cs = reverse (lstrip (reverse (lstrip cs)))

unfoldable pub same_text : List ℕ → List ℕ → Bool
same_text [] [] = true
same_text (a ∷ as') (b ∷ bs) = a == b && same_text as' bs
same_text _ _ = false

unfoldable pub starts : List ℕ → List ℕ → Bool
starts [] text = true
starts (a ∷ as') [] = false
starts (a ∷ as') (b ∷ bs) = a == b && starts as' bs

-- `phrase in text`
unfoldable pub occurs : List ℕ → List ℕ → Bool
unfolding starts
occurs phrase [] = starts phrase []
occurs phrase (c ∷ cs) = starts phrase (c ∷ cs) || occurs phrase cs
