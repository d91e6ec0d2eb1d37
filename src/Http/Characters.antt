-- ===== src/Http/Characters.antt =====
-- The characters that `class HttpParser` (librcom/src/HttpParser.cpp) tells apart.
use librcom.Base.{ℕ, Bool, not, ◌&&◌, ◌||◌, [], ◌∷◌, ltb, leb, ◌==◌, Bytes, codes}

-- `isupper`, `isdigit` and `iscntrl` in the "C" locale.
abbrev pub isupper : ℕ → Bool
isupper c = leb b'A' c && leb c b'Z'

abbrev pub isdigit : ℕ → Bool
isdigit c = leb b'0' c && leb c b'9'

abbrev pub iscntrl : ℕ → Bool
iscntrl c = ltb c 32 || c == 127

-- Whether `strchr` finds the character: it finds the terminating zero too.
unfoldable pub strchr : Bytes → ℕ → Bool
strchr [] c = c == 0
strchr (x ∷ xs) c = c == x || strchr xs c

unfoldable pub is_valid_version_char : ℕ → Bool
is_valid_version_char c = strchr (codes "HTTP/0123456789.") c

unfoldable pub is_separator : ℕ → Bool
is_separator c = strchr (codes "()<>@,;:\\'/[]?={} \t") c

unfoldable pub is_token_character : ℕ → Bool
is_token_character c = not (iscntrl c) && not (is_separator c)
