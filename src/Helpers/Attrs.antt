-- ===== src/Helpers/Attrs.antt =====
-- ise_exporter/util.py: attributes by name. A dict from tags to texts is a list of its items.
use ise_exporter_v.Base.{
  List, [], ◌∷◌, ◌&&◌, ◌||◌, Option, none, some, String, str_eq, ◌==◌, if◌then◌else◌, get_or,
}
use Prim.Native.Char.{Char, code}
use ise_exporter_v.Helpers.Text.{strip}

abbrev pub Attrs : Type 0
Attrs = List (String × String)

-- attrs.get(key)
abbrev pub get : String → Attrs → Option String
get k [] = none
get k ((j, v) ∷ attrs) = if str_eq k j then some v else get k attrs

-- attrs[key] = value
unfoldable pub set : String → String → Attrs → Attrs
set k v [] = (k, v) ∷ []
set k v ((j, w) ∷ attrs) =
    let r = set k v attrs in if str_eq k j then (j, v) ∷ attrs else (j, w) ∷ r

-- first_nonempty(attrs, *keys)
unfoldable pub first_nonempty : Attrs → List String → String
unfolding strip
first_nonempty attrs [] = ""
first_nonempty attrs (k ∷ ks) =
    let v = strip (get_or (get k attrs) "") in
    let r = first_nonempty attrs ks in if str_eq v "" then r else v

abbrev pub cons_head : Char → List String → List String
cons_head c [] = String.◌∷◌ c "" ∷ []
cons_head c (p ∷ ps) = String.◌∷◌ c p ∷ ps

-- s.split(":!:")
unfoldable pub split_attrs : String → List String
split_attrs (String.◌∷◌ a (String.◌∷◌ b (String.◌∷◌ c s))) =
    let after = split_attrs s in
    let next = split_attrs (String.◌∷◌ b (String.◌∷◌ c s)) in
    if (code a == 58) && (code b == 33) && (code c == 58) then "" ∷ after else cons_head a next
split_attrs s = s ∷ []

-- part.partition("="), `none` where "=" not in part
unfoldable pub partition : String → Option (String × String)
partition String.[] = none
partition (String.◌∷◌ c s) =
    let r = partition s in
    if code c == 61
    then some ("", s)
    else elim r [ none ↦ none | some (k, v) ↦ some (String.◌∷◌ c k, v) ]

abbrev add_part : Attrs → String → Attrs
add_part result part = elim (partition part) [
  | none ↦ result
  | some (k, v) ↦
      if str_eq (strip k) "" || str_eq (strip v) "" then result else set (strip k) (strip v) result
]

unfoldable pub add_parts : Attrs → List String → Attrs
unfolding partition strip set
add_parts result [] = result
add_parts result (p ∷ ps) = add_parts (add_part result p) ps

-- parse_other_attr_string(s)
unfoldable pub parse_other_attr_string : String → Attrs
unfolding add_parts split_attrs
parse_other_attr_string s = if str_eq s "" then [] else add_parts [] (split_attrs s)
