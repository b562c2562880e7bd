-- ===== src/Helpers/Mac.antt =====
-- ise_exporter/util.py: MAC addresses. `upper` is str.upper().
use ise_exporter_v.Base.{
  ℕ, zero, suc, Bool, false, ◌&&◌, ◌||◌, String, str_eq, leb, ◌==◌, if◌then◌else◌,
}
use Prim.Native.Char.{Char, code}
use ise_exporter_v.Helpers.Text.{strip, num_chars}

abbrev pub is_digit : Char → Bool
is_digit c = leb 48 (code c) && leb (code c) 57

abbrev pub is_upper_hex : Char → Bool
is_upper_hex c = is_digit c || (leb 65 (code c) && leb (code c) 70)

abbrev pub is_hex : Char → Bool
is_hex c = is_upper_hex c || (leb 97 (code c) && leb (code c) 102)

-- re.sub(r"[^0-9A-Fa-f]", "", text)
unfoldable pub compact : String → String
compact String.[] = ""
compact (String.◌∷◌ c s) = let r = compact s in if is_hex c then String.◌∷◌ c r else r

-- ":".join(compact[index:index + 2] for index in range(0, 12, 2)), of twelve characters
unfoldable pub join_pairs : String → String
join_pairs (String.◌∷◌ a (String.◌∷◌ b (String.◌∷◌ c s))) =
    String.◌∷◌ a (String.◌∷◌ b (String.◌∷◌ ":" (join_pairs (String.◌∷◌ c s))))
join_pairs s = s

-- text.replace("-", ":")
unfoldable pub dashes_to_colons : String → String
dashes_to_colons String.[] = ""
dashes_to_colons (String.◌∷◌ c s) =
    let r = dashes_to_colons s in if code c == 45 then String.◌∷◌ ":" r else String.◌∷◌ c r

-- The match of (?:[0-9A-F]{2}:){n}[0-9A-F]{2} with a whole text
unfoldable pub full_match : ℕ → String → Bool
full_match zero (String.◌∷◌ a (String.◌∷◌ b String.[])) = is_upper_hex a && is_upper_hex b
full_match (suc n) (String.◌∷◌ a (String.◌∷◌ b (String.◌∷◌ c s))) =
    is_upper_hex a && is_upper_hex b && (code c == 58) && full_match n s
full_match _ _ = false

module _ (upper : String → String) where
  -- normalize_mac(mac), of a text
  unfoldable pub normalize_mac : String → String
  unfolding strip compact join_pairs dashes_to_colons
  normalize_mac mac =
      if str_eq mac ""
      then ""
      else if num_chars (compact (strip mac)) == 12
      then join_pairs (upper (compact (strip mac)))
      else dashes_to_colons (upper (strip mac))

  -- is_mac(value)
  unfoldable pub is_mac : String → Bool
  unfolding normalize_mac full_match
  is_mac value = full_match 5 (normalize_mac value)
