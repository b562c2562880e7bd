-- ===== src/Posture/Detail.antt =====
-- ise_exporter/collectors/mnt_active_posture.py: the detail of one session, and what is kept of it.
use ise_exporter_v.Base.{
  ℕ, List, [], ◌∷◌, Bool, not, Option, none, some, String, str_eq, if◌then◌else◌,
}
use ise_exporter_v.Helpers.Attrs.{Attrs, first_nonempty, parse_other_attr_string}
use ise_exporter_v.Posture.Session.{MntSessions, bounded_text, value_of}

-- SECURECLIENT_VERSION_KEYS
abbrev pub secureclient_version_keys : List String
secureclient_version_keys =
    "secureClientVersion" ∷ "SecureClientVersion" ∷ "anyConnectVersion" ∷ "AnyConnectVersion"
    ∷ "postureAgentVersion" ∷ "PostureAgentVersion" ∷ "AnyConnectAgentVersion" ∷ []

-- The dict that _compact_detail returns: its texts, and other_attr_string_present.
pub record Compact : Type 0 where
  pub texts : Attrs
  pub other_attr_string_present : Bool

-- _detail(client, mac), of the client's answer
unfoldable pub detail_of : Option MntSessions → Option Attrs
detail_of none = none
detail_of (some payload) = elim payload.sessions [ [] ↦ none | s ∷ _ ↦ some s ]

abbrev raw_other : Attrs → String
raw_other detail =
    bounded_text (first_nonempty detail ("other_attr_string" ∷ "otherAttrString" ∷ [])) 131072

abbrev agent_version : Attrs → Attrs → String
agent_version detail attrs =
    if str_eq (first_nonempty attrs secureclient_version_keys) ""
    then value_of detail attrs ("posture_agent_version" ∷ "PostureAgentVersion" ∷ [])
    else first_nonempty attrs secureclient_version_keys

-- `fields`, each with its entry of `limits`
unfoldable pub fields_of : Attrs → Attrs → List (String × ℕ × String)
unfolding value_of first_nonempty
fields_of detail attrs =
    ("posture_status", 1024, value_of detail attrs ("posture_status" ∷ "PostureStatus" ∷ []))
    ∷ (
      "posture_assessment_status",
      1024,
      value_of detail attrs ("posture_assessment_status" ∷ "PostureAssessmentStatus" ∷ []),
    )
    ∷ (
      "posture_applicable",
      1024,
      value_of detail attrs ("posture_applicable" ∷ "PostureApplicable" ∷ []),
    )
    ∷ ("posture_report", 65536, value_of detail attrs ("posture_report" ∷ "PostureReport" ∷ []))
    ∷ ("posture_agent_version", 512, agent_version detail attrs)
    ∷ ("server", 128, value_of detail attrs ("server" ∷ "acs_server" ∷ "ise_node" ∷ "Server" ∷ []))
    ∷ (
      "network_device_name",
      256,
      value_of detail attrs ("network_device_name" ∷ "NetworkDeviceName" ∷ []),
    )
    ∷ (
      "execution_steps",
      16384,
      value_of detail attrs ("execution_steps" ∷ "ExecutionSteps" ∷ "Steps" ∷ []),
    )
    ∷ ("step_latency", 16384, value_of detail attrs ("step_latency" ∷ "StepLatency" ∷ []))
    ∷ (
      "total_authen_latency",
      1024,
      value_of detail attrs (
          "total_authen_latency" ∷ "TotalAuthenLatency" ∷ "total_authentication_latency"
          ∷ "TotalAuthenticationLatency" ∷ []),
    )
    ∷ []

-- `compact`: the fields whose bounded text is not empty.
unfoldable pub compact_fields : List (String × ℕ × String) → Attrs
unfolding bounded_text
compact_fields [] = []
compact_fields ((key, limit, v) ∷ fields) =
    let r = compact_fields fields in
    if str_eq (bounded_text v limit) "" then r else (key, bounded_text v limit) ∷ r

-- _compact_detail(detail)
unfoldable pub compact_detail : Attrs → Compact
unfolding bounded_text first_nonempty parse_other_attr_string fields_of compact_fields
compact_detail detail = record {
  texts = compact_fields (fields_of detail (parse_other_attr_string (raw_other detail)));
  other_attr_string_present = not (str_eq (raw_other detail) "");
}
