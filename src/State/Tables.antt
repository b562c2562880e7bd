-- ===== src/State/Tables.antt =====
-- ise_exporter/state.py: the four caches of details, on the statements of State.Cache. `encode` is
-- json.dumps, `none` where it raises, and `decode` is json.loads, `none` where it raises or gives no
-- dict. A stored text that is no text, or too long, is read as one that does not decode.
use ise_exporter_v.Base.{
  ℕ, ◌*◌, List, all, Bool, true, false, ◌&&◌, Option, none, some, String, length, ltb, leb,
  if◌then◌else◌,
}
use Prim.Native.String.{len}
use ise_exporter_v.Base.Int.{ℤ, pos}
use ise_exporter_v.Base.Float.{PyFloat}
use ise_exporter_v.Rest.Page.{Field, proper}
use ise_exporter_v.State.Cache.{Row, Entry, state_key, read_entries, put_row, finish_cycle}

abbrev pub max_posture_cache_detail_bytes : ℕ
max_posture_cache_detail_bytes = 128 * 1024

abbrev pub max_tacacs_cache_detail_bytes : ℕ
max_tacacs_cache_detail_bytes = 64 * 1024

abbrev pub max_tacacs_policy_rules : ℕ
max_tacacs_policy_rules = 1000000

abbrev pub max_device_group_detail_bytes : ℕ
max_device_group_detail_bytes = 16 * 1024

-- session_signature and detail_json
pub record PostureValue : Type 0 where
  pub signature : String
  pub detail_json : String

pub record Signed (D : Type 0) : Type 0 where
  pub signature : String
  pub detail : D

module _ {D : Type 0} (encode : D → Option String) where
  -- The text that a put method stores, within its limit.
  unfoldable pub encoded_within : ℕ → D → Option String
  encoded_within limit d = elim (encode d) [
    | none ↦ none
    | some t ↦ if ltb limit (len t) then none else some t
  ]

  -- put_posture(mac, signature, detail, now)
  unfoldable pub put_posture :
      String → String → D → PyFloat → List (Row PostureValue) → Option (List (Row PostureValue))
  unfolding put_row encoded_within
  put_posture mac signature detail now rows =
      let encoded : Option PostureValue = elim (state_key signature) [
        | none ↦ none
        | some s ↦ elim (encoded_within max_posture_cache_detail_bytes detail) [
          | none ↦ none
          | some t ↦ some (record { signature = s; detail_json = t })
        ]
      ] in
      put_row encoded mac now rows

  -- put_tacacs_user(user_id, detail, now)
  unfoldable pub put_tacacs_user :
      String → D → PyFloat → List (Row String) → Option (List (Row String))
  unfolding put_row encoded_within
  put_tacacs_user user_id detail now rows =
      put_row (encoded_within max_tacacs_cache_detail_bytes detail) user_id now rows

  -- put_network_device(device_id, detail, now)
  unfoldable pub put_network_device :
      String → D → PyFloat → List (Row String) → Option (List (Row String))
  unfolding put_row encoded_within
  put_network_device device_id detail now rows =
      put_row (encoded_within max_device_group_detail_bytes detail) device_id now rows

module _ {D : Type 0} (decode : String → Option D) where
  -- The CASE of the selection, and json.loads.
  unfoldable pub decoded_within : ℕ → String → Option D
  decoded_within limit t = if ltb limit (len t) then none else decode t

  abbrev pub posture_detail : PostureValue → Option (Signed D)
  posture_detail v = elim (decoded_within max_posture_cache_detail_bytes v.detail_json) [
    | none ↦ none
    | some d ↦ some (record { signature = v.signature; detail = d })
  ]

  -- posture_entries(macs)
  unfoldable pub posture_entries :
      List String
      → List (Row PostureValue)
      → Option (List (Entry (Signed D)) × List (Row PostureValue))
  unfolding read_entries decoded_within
  posture_entries macs rows = read_entries posture_detail macs rows

  -- tacacs_user_entries(user_ids)
  unfoldable pub tacacs_user_entries :
      List String → List (Row String) → Option (List (Entry D) × List (Row String))
  unfolding read_entries decoded_within
  tacacs_user_entries user_ids rows =
      read_entries (decoded_within max_tacacs_cache_detail_bytes) user_ids rows

  -- `groups` reads "NetworkDeviceGroupList" of a detail: its entries, as strings or anything else.
  module _ (groups : D → Field (List (Option String))) where
    abbrev pub is_string : Option String → Bool
    is_string none = false
    is_string (some t) = true

    abbrev pub has_groups : D → Bool
    has_groups d = elim (groups d) [ proper gs ↦ leb (length gs) 3 && all is_string gs | _ ↦ false ]

    unfoldable pub device_detail : String → Option D
    unfolding decoded_within
    device_detail t = elim (decoded_within max_device_group_detail_bytes t) [
      | none ↦ none
      | some d ↦ if has_groups d then some d else none
    ]

    -- network_device_entries(device_ids)
    unfoldable pub network_device_entries :
        List String → List (Row String) → Option (List (Entry D) × List (Row String))
    unfolding read_entries device_detail
    network_device_entries device_ids rows = read_entries device_detail device_ids rows

-- The two counts of a policy's rules, within their bounds.
abbrev pub rule_count : ℤ → Option ℕ
rule_count (pos n) = if ltb max_tacacs_policy_rules n then none else some n
rule_count _ = none

abbrev pub rule_counts : ℤ × ℤ → Option (ℕ × ℕ)
rule_counts c = elim (rule_count c.0) [
  | none ↦ none
  | some a ↦ elim (rule_count c.1) [ none ↦ none | some b ↦ some (a, b) ]
]

-- tacacs_policy_entries(policy_ids)
unfoldable pub tacacs_policy_entries :
    List String → List (Row (ℤ × ℤ)) → Option (List (Entry (ℕ × ℕ)) × List (Row (ℤ × ℤ)))
unfolding read_entries
tacacs_policy_entries policy_ids rows = read_entries rule_counts policy_ids rows

-- put_tacacs_policy(policy_id, authentication, authorization, now)
unfoldable pub put_tacacs_policy :
    String → ℤ → ℤ → PyFloat → List (Row (ℤ × ℤ)) → Option (List (Row (ℤ × ℤ)))
unfolding put_row
put_tacacs_policy policy_id authentication authorization now rows =
    let counts : Option (ℤ × ℤ) = elim (rule_counts (authentication, authorization)) [
      | none ↦ none
      | some _ ↦ some (authentication, authorization)
    ] in
    put_row counts policy_id now rows

-- finish_posture_cycle(active_macs, now, grace_seconds=...)
abbrev pub finish_posture_cycle :
    List String → PyFloat → ℕ → List (Row PostureValue) → Option (List (Row PostureValue))
finish_posture_cycle active_macs now grace_seconds rows =
    finish_cycle active_macs now grace_seconds rows

-- finish_tacacs_user_cycle, finish_network_device_cycle
abbrev pub finish_detail_cycle :
    List String → PyFloat → List (Row String) → Option (List (Row String))
finish_detail_cycle active_ids now rows = finish_cycle active_ids now 0 rows

-- finish_tacacs_policy_cycle(active_ids, now)
abbrev pub finish_tacacs_policy_cycle :
    List String → PyFloat → List (Row (ℤ × ℤ)) → Option (List (Row (ℤ × ℤ)))
finish_tacacs_policy_cycle active_ids now rows = finish_cycle active_ids now 0 rows
