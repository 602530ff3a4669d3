-- ===== src/Prelude/Chars.antt =====
-- Texts as their characters, and the classes of characters that the patterns of identifiers use.
use Prim.Native.Char.{code}
use Prim.Native.Nat.{ℕ}
use Prim.Native.String.{String}
use mathlib.Core.Path.{◌≡◌, refl}
use mathlib.Core.Bool.{Bool, true, false, ◌&&◌, ◌||◌}
use mathlib.Core.List.{List, [], ◌∷◌}
use codex_bridge.Prelude.Tests.{◌==◌, nat_eq, leb, if◌then◌else◌}
use codex_bridge.Prelude.Lists.{drop}

unfoldable pub codes : String → List ℕ
codes String.[] = []
codes (String.◌∷◌ c s) = code c ∷ codes s

unfoldable pub is_digit : ℕ → Bool
is_digit c = leb b'0' c && leb c b'9'

-- `[a-f0-9]`
unfoldable pub is_hex : ℕ → Bool
unfolding is_digit
is_hex c = is_digit c || (leb b'a' c && leb c b'f')

-- `[a-z0-9_]`
unfoldable pub is_word : ℕ → Bool
unfolding is_digit nat_eq
is_word c = is_digit c || (leb b'a' c && leb c b'z') || c == b'_'

unfoldable pub every : (ℕ → Bool) → List ℕ → Bool
every p [] = true
every p (c ∷ cs) = p c && every p cs

unfoldable pub is_at : ℕ → ℕ → List ℕ → Bool
unfolding nat_eq
is_at i c cs = elim (drop i cs) [ [] ↦ false | d ∷ _ ↦ d == c ]

-- `$` also matches in front of one newline at the end.
unfoldable pub without_newline : List ℕ → List ℕ
unfolding nat_eq
without_newline [] = []
without_newline (c ∷ []) = if c == 10 then [] else c ∷ []
without_newline (c ∷ d ∷ cs) = c ∷ without_newline (d ∷ cs)

-- The characters that `str.isspace` accepts.
is_space : ℕ → Bool
unfolding nat_eq
is_space c =
    (leb 9 c && leb c 13)
    || (leb 28 c && leb c 32)
    || c == 0x85
    || c == 0xa0
    || c == 0x1680
    || (leb 0x2000 c && leb c 0x200a)
    || c == 0x2028
    || c == 0x2029
    || c == 0x202f
    || c == 0x205f
    || c == 0x3000

strip_left : String → String
unfolding is_space
strip_left String.[] = String.[]
strip_left (String.◌∷◌ c s) = if is_space (code c) then strip_left s else String.◌∷◌ c s

strip_right : String → String
unfolding is_space
strip_right String.[] = String.[]
strip_right (String.◌∷◌ c s) =
    let rest = strip_right s in
    elim rest [
      | String.[] ↦ if is_space (code c) then String.[] else String.◌∷◌ c String.[]
      | String.◌∷◌ d t ↦ String.◌∷◌ c (String.◌∷◌ d t)
    ]

-- `text.strip()`
unfoldable pub strip : String → String
unfolding strip_left strip_right
strip s = strip_right (strip_left s)

strip_test : strip " \tkey one\n" ≡ "key one"
unfolding strip
strip_test = refl
