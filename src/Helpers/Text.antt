-- ===== src/Helpers/Text.antt =====
-- The methods of Python's str that the helpers use, and the cuts of a text by its bytes.
use ise_exporter_v.Base.{
  ℕ, suc, ◌-◌, List, Bool, true, ◌&&◌, ◌||◌, String, str_eq, leb, ◌==◌, if◌then◌else◌, any,
}
use mathlib.Core.List.{[], ◌∷◌}
use Prim.Native.Char.{Char, code, len_utf8}

-- str.isspace() of one character
abbrev space_codes : List ℕ
space_codes = 133 ∷ 160 ∷ 5760 ∷ 8232 ∷ 8233 ∷ 8239 ∷ 8287 ∷ 12288 ∷ []

unfoldable pub is_space : Char → Bool
is_space c =
    (leb 9 (code c) && leb (code c) 13)
    || (leb 28 (code c) && leb (code c) 32)
    || (leb 8192 (code c) && leb (code c) 8202)
    || any (λ n. n == code c) space_codes

-- text.lstrip()
unfoldable pub lstrip : String → String
unfolding is_space
lstrip String.[] = ""
lstrip (String.◌∷◌ c s) = let r = lstrip s in if is_space c then r else String.◌∷◌ c s

-- text.rstrip()
unfoldable pub rstrip : String → String
unfolding is_space
rstrip String.[] = ""
rstrip (String.◌∷◌ c s) =
    let r = rstrip s in if is_space c && str_eq r "" then "" else String.◌∷◌ c r

-- text.strip()
unfoldable pub strip : String → String
unfolding lstrip rstrip
strip s = rstrip (lstrip s)

-- text.encode("utf-8")[:limit].decode("utf-8", "ignore"): the characters that fit whole.
unfoldable pub fit : ℕ → String → String
fit n String.[] = ""
fit n (String.◌∷◌ c s) =
    let r = fit (n - len_utf8 c) s in if leb (len_utf8 c) n then String.◌∷◌ c r else ""

-- Every character passes the test.
abbrev pub all_chars : (Char → Bool) → String → Bool
all_chars p String.[] = true
all_chars p (String.◌∷◌ c s) = p c && all_chars p s

abbrev pub map_chars : (Char → Char) → String → String
map_chars f String.[] = ""
map_chars f (String.◌∷◌ c s) = String.◌∷◌ (f c) (map_chars f s)

-- len(text)
abbrev pub num_chars : String → ℕ
num_chars String.[] = 0
num_chars (String.◌∷◌ c s) = suc (num_chars s)
