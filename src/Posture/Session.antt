-- ===== src/Posture/Session.antt =====
-- ise_exporter/collectors/mnt_active_posture.py: the rows of the active list, as the client gives
-- them: dicts from tags to texts. `upper` is str.upper(), `sha` the hexadecimal SHA-256 of a text,
-- `dumps` json.dumps with sorted keys, and `int_of` int(text).
use ise_exporter_v.Base.{
  ℕ, List, [], ◌∷◌, any, Option, none, some, String, str_eq, ltb, leb, if◌then◌else◌,
}
use Prim.Native.String.{len}
use ise_exporter_v.Base.Int.{ℤ, pos}
pub use ise_exporter_v.Rest.MntXml.{MntSessions}
use ise_exporter_v.Helpers.Text.{strip, fit, num_chars}
use ise_exporter_v.Helpers.Mac.{normalize_mac, is_mac}
use ise_exporter_v.Helpers.Attrs.{Attrs, get, first_nonempty}

abbrev pub max_active_count : ℕ
max_active_count = 1000000000

-- _bounded_text(value, limit)
unfoldable pub bounded_text : String → ℕ → String
unfolding strip fit
bounded_text value limit =
    if leb (len (strip value)) limit then strip value else fit limit (strip value)

-- _value(detail, attrs, *keys)
unfoldable pub value_of : Attrs → Attrs → List String → String
unfolding first_nonempty
value_of detail attrs keys =
    if str_eq (first_nonempty detail keys) ""
    then first_nonempty attrs keys
    else first_nonempty detail keys

abbrev pub mac_keys : List String
mac_keys = "calling_station_id" ∷ "callingStationId" ∷ "mac_address" ∷ "macAddress" ∷ "mac" ∷ []

-- The checks of _active_mac on the text that it finds.
unfoldable pub checked_mac : (String → String) → String → String
unfolding normalize_mac is_mac
checked_mac upper raw =
    if ltb 64 (num_chars raw) then "" else if is_mac upper raw then normalize_mac upper raw else ""

-- _active_mac(row)
unfoldable pub active_mac : (String → String) → Attrs → String
unfolding first_nonempty checked_mac
active_mac upper row = checked_mac upper (first_nonempty row mac_keys)

-- _active_count(payload)
unfoldable pub active_count : (String → Option ℤ) → Option MntSessions → Option ℕ
unfolding first_nonempty
active_count int_of none = none
active_count int_of (some payload) = elim payload.sessions [
  | [] ↦ none
  | s ∷ _ ↦ elim (int_of (first_nonempty s ("count" ∷ "active_count" ∷ "activeCount" ∷ []))) [
    | some (pos n) ↦ if leb n max_active_count then some n else none
    | _ ↦ none
  ]
]

abbrev pub signature_keys : List String
signature_keys =
    "audit_session_id" ∷ "auditSessionId" ∷ "session_id" ∷ "sessionId" ∷ "acct_session_id"
    ∷ "acctSessionId" ∷ "acs_server" ∷ "acsServer" ∷ "authentication_method"
    ∷ "authenticationMethod" ∷ "authen_time" ∷ "authenTime" ∷ []

-- The material of a signature: the keys of the row that are there and not "".
unfoldable pub material : Attrs → List String → Attrs
unfolding bounded_text
material row [] = []
material row (k ∷ ks) =
    let r = material row ks in
    elim (get k row) [ none ↦ r | some v ↦ if str_eq v "" then r else (k, bounded_text v 1024) ∷ r ]

module _ (upper : String → String) (sha : String → String) (dumps : Attrs → String) where
  -- _session_signature(row)
  unfoldable pub session_signature : Attrs → String
  unfolding material active_mac
  session_signature row = elim (material row signature_keys) [
    | [] ↦ sha (dumps (("mac", active_mac upper row) ∷ []))
    | m ∷ ms ↦ sha (dumps (m ∷ ms))
  ]

-- active_rows: the first row of each address, in the order of the list.
unfoldable pub active_rows : (String → String) → List String → List Attrs → List (String × Attrs)
unfolding active_mac
active_rows upper seen [] = []
active_rows upper seen (row ∷ rows) =
    let mac = active_mac upper row in
    let skipped = active_rows upper seen rows in
    let taken = active_rows upper (mac ∷ seen) rows in
    if str_eq mac "" then skipped else if any (str_eq mac) seen then skipped else (mac, row) ∷ taken
