-- ===== src/Rest/MntXml.antt =====
-- ise_exporter/clients/rest.py: _parse_mnt_xml and the end of get_mnt_xml. The pull parser of
-- xml.etree is the sequence of its events, with the tags without their namespaces; `int_of` is
-- int(text). A document that is not well-formed has no such sequence.
use ise_exporter_v.Base.{
  ℕ, ◌+◌, List, [], ◌∷◌, ◌++◌, ◌&&◌, not, Option, none, some, get_or, String, str_eq, length, ltb,
  leb, ◌==◌, if◌then◌else◌,
}
use ise_exporter_v.Base.Int.{ℤ, pos, eqb_ℤ}
use ise_exporter_v.Helpers.Attrs.{Attrs, set}
use ise_exporter_v.Helpers.Text.{strip}
use ise_exporter_v.Rest.Transport.{Result, done, refused, invalid_response}

abbrev pub max_xml_elements : ℕ
max_xml_elements = 2000000

abbrev pub max_xml_depth : ℕ
max_xml_depth = 64

abbrev pub max_xml_sessions : ℕ
max_xml_sessions = 250000

abbrev pub max_xml_fields_per_session : ℕ
max_xml_fields_per_session = 128

-- The start of an element, with its attribute noOfActiveSession, and its end, with its text.
pub data XmlEvent : Type 0 where
  start : String → Option String → XmlEvent
  end : String → String → XmlEvent

-- The variables of _parse_mnt_xml; `stack` has the names of the open elements, the innermost first.
pub record Parser : Type 0 where
  pub stack : List String
  pub elements : ℕ
  pub raw_total : Option String
  pub active_sessions : List Attrs
  pub auth_sessions : List Attrs
  pub detail : Attrs
  pub active_record : Option Attrs
  pub auth_record : Option Attrs
  pub active_fields : ℕ
  pub auth_fields : ℕ

abbrev pub no_events : Parser
no_events = record {
  stack = [];
  elements = 0;
  raw_total = none;
  active_sessions = [];
  auth_sessions = [];
  detail = [];
  active_record = none;
  auth_record = none;
  active_fields = 0;
  auth_fields = 0;
}

-- A record that starts: `none` where XMLResponseTooComplex is raised, here and below.
unfoldable pub open_record : String → Parser → Option Parser
open_record name p =
    if str_eq name "activeSession"
    then elim p.active_record [
      | none ↦ some (record p { active_record = some []; active_fields = 0 })
      | some _ ↦ none
    ]
    else if str_eq name "authStatusElements"
    then elim p.auth_record [
      | none ↦ some (record p { auth_record = some []; auth_fields = 0 })
      | some _ ↦ none
    ]
    else some p

-- The event "start"
unfoldable pub on_start : String → Option String → Parser → Option Parser
unfolding open_record
on_start name total p =
    if ltb max_xml_elements (p.elements + 1)
    then none
    else if ltb max_xml_depth (length p.stack + 1)
    then none
    else open_record name (record p {
      stack = name ∷ p.stack;
      elements = p.elements + 1;
      raw_total = elim p.stack [ [] ↦ total | _ ∷ _ ↦ p.raw_total ];
    })

abbrev pub parent_name : List String → String
parent_name (_ ∷ parent ∷ _) = parent
parent_name _ = ""

abbrev pub store_detail : String → String → Parser → Option Parser
store_detail name text p =
    if (length p.stack == 2) && not (str_eq text "")
    then some (record p { detail = set name text p.detail })
    else some p

abbrev pub store_auth : Option Attrs → String → String → Parser → Option Parser
store_auth none name text p = store_detail name text p
store_auth (some r) name text p =
    if str_eq (parent_name p.stack) "authStatusElements"
    then if ltb max_xml_fields_per_session (p.auth_fields + 1)
      then none
      else some (record p { auth_record = some (set name text r); auth_fields = p.auth_fields + 1 })
    else store_detail name text p

abbrev pub store_active : Option Attrs → String → String → Parser → Option Parser
store_active none name text p = store_auth p.auth_record name text p
store_active (some r) name text p =
    if str_eq (parent_name p.stack) "activeSession"
    then if ltb max_xml_fields_per_session (p.active_fields + 1)
      then none
      else some
          (record p { active_record = some (set name text r); active_fields = p.active_fields + 1 })
    else store_auth p.auth_record name text p

-- The text of an element that ends, in the record or the detail that it belongs to.
unfoldable pub store_text : String → String → Parser → Option Parser
unfolding set
store_text name text p = store_active p.active_record name text p

abbrev pub pop : List String → List String
pop [] = []
pop (_ ∷ stack) = stack

-- A record that ends, and stack.pop()
unfoldable pub close_record : String → Parser → Option Parser
close_record name p =
    if str_eq name "activeSession"
    then if leb max_xml_sessions (length p.active_sessions)
      then none
      else some (record p {
        active_sessions = p.active_sessions ++ (get_or p.active_record [] ∷ []);
        active_record = none;
        stack = pop p.stack;
      })
    else if str_eq name "authStatusElements"
    then if leb max_xml_sessions (length p.auth_sessions)
      then none
      else some (record p {
        auth_sessions = p.auth_sessions ++ (get_or p.auth_record [] ∷ []);
        auth_record = none;
        stack = pop p.stack;
      })
    else some (record p { stack = pop p.stack })

-- One event
unfoldable pub process_event : XmlEvent → Parser → Option Parser
unfolding on_start store_text close_record strip
process_event (start name total) p = on_start name total p
process_event (end name text) p = elim (store_text name (strip text) p) [
  | none ↦ none
  | some q ↦ close_record name q
]

-- process_events, for all events
unfoldable pub process_events : List XmlEvent → Parser → Option Parser
unfolding process_event
process_events [] p = some p
process_events (e ∷ es) p = elim (process_event e p) [ none ↦ none | some q ↦ process_events es q ]

-- A dict of get_mnt_xml.
pub record MntSessions : Type 0 where
  pub total : ℤ
  pub sessions : List Attrs

-- The end of get_mnt_xml, on what the parser has found.
unfoldable pub sessions_of : (String → Option ℤ) → Parser → Result MntSessions
sessions_of int_of p = elim p.active_sessions [
  | s ∷ ss ↦
      let total : Option ℤ = elim p.raw_total [
        | none ↦ some (pos (length (s ∷ ss)))
        | some t ↦ int_of t
      ] in
      elim total [
        | none ↦ refused invalid_response
        | some n ↦
            if eqb_ℤ n (pos (length (s ∷ ss)))
            then done (record { total = n; sessions = s ∷ ss })
            else refused invalid_response
      ]
  | [] ↦ elim p.auth_sessions [
    | s ∷ ss ↦ done (record { total = pos (length (s ∷ ss)); sessions = s ∷ ss })
    | [] ↦ elim p.detail [
      | [] ↦ done (record { total = pos 0; sessions = [] })
      | d ∷ ds ↦ done (record { total = pos 1; sessions = (d ∷ ds) ∷ [] })
    ]
  ]
]
