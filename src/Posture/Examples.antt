-- ===== src/Posture/Examples.antt =====
-- A collection of two endpoints, of which one is in the cache with the signature of its session.
use ise_exporter_v.Base.{
  List, [], ◌∷◌, map, String, str_eq, str_eq_refl, Bool, ◌⊎◌, Option, none, some, true, false, ◌≡◌,
  refl, sym, ap, ◌∙◌, All, arith, length, any, unique_after, ◌≤◌, if◌then◌else◌,
}
use ise_exporter_v.Base.Int.{ℤ, pos}
use ise_exporter_v.Base.Float.{PyFloat, finite}
use ise_exporter_v.Helpers.Attrs.{Attrs}
use ise_exporter_v.State.Cache.{Entry}
use ise_exporter_v.State.Tables.{
  Signed, posture_entries, encoded_within, decoded_within, max_posture_cache_detail_bytes,
}
use ise_exporter_v.Posture.Session.{MntSessions, active_rows}
use ise_exporter_v.Posture.Detail.{Compact, compact_detail, detail_of}
use ise_exporter_v.Posture.Plan.{PostureConfig, select, planned}
use ise_exporter_v.Posture.Collect.{
  Table, cycle, bounded_details, collect, session_rows, signatures_of,
}
use ise_exporter_v.Posture.Invariant.{Shows, Brings}
use ise_exporter_v.Posture.Provenance.{RowFrom}
use ise_exporter_v.Posture.Current.{collect-Shows}
use ise_exporter_v.Posture.Fresh.{FreshCycle}
use ise_exporter_v.Posture.Oversized.{is_oversized, cycle-oversized}
use ise_exporter_v.Posture.Groups.{count_all, total, count_all_bounds}
use ise_exporter_v.Posture.Whole.{Unreadable, Answers, selected_of, collect-FreshCycle}

abbrev upper : String → String
upper s = s

abbrev sha : String → String
sha s = "5e"

abbrev dumps : Attrs → String
dumps a = "m"

abbrev int_of : String → Option ℤ
int_of s = if str_eq s "2" then some (pos 2) else none

abbrev float_of : String → Option PyFloat
float_of s = none

abbrev is_digits : String → Bool
is_digits s = str_eq s "2"

abbrev list : List Attrs
list =
    (("calling_station_id", "00-11-22-33-44-55") ∷ ("audit_session_id", "a") ∷ [])
    ∷ (("calling_station_id", "0011.2233.4466") ∷ [])
    ∷ []

abbrev config : PostureConfig
config = record {
  max_active_list_sessions = pos 100;
  max_sessions = pos 100;
  max_requests_per_cycle = pos 10;
  refresh_ttl = pos 3600;
  interval = pos 300;
}

abbrev detail : Attrs
detail = ("posture_status", "Compliant") ∷ []

abbrev answer : String → Option MntSessions
answer mac = some (record { total = pos 1; sessions = detail ∷ [] })

abbrev encode : Compact → Option String
encode d = some "{}"

abbrev decode : String → Option Compact
decode t = some (record { texts = detail; other_attr_string_present = false })

abbrev rows : Table
rows =
    record {
      key = "00:11:22:33:44:55";
      value = record { signature = "5e"; detail_json = "{}" };
      updated_at = finite (pos 1000000);
      last_seen = 1000000;
    }
    ∷ []

test_compact : compact_detail detail ≡ record { texts = detail; other_attr_string_present = false }
unfolding compact_detail
test_compact = refl

test_selected :
    selected_of upper sha dumps (λ s. (refl, refl)) config list
    ≡ "00:11:22:33:44:55" ∷ "00:11:22:33:44:66" ∷ []
unfolding select active_rows
test_selected = refl

abbrev count_payload : Option MntSessions
count_payload = some (record { total = pos 1; sessions = (("count", "2") ∷ []) ∷ [] })

abbrev active : Option MntSessions
active = some (record { total = pos 2; sessions = list })

test_rows : session_rows int_of config count_payload active ≡ some list
unfolding session_rows
test_rows = refl

-- The detail that the client gives for every endpoint.
abbrev FromClient : String → String → Compact → Type 0
FromClient mac signature d = d ≡ compact_detail detail

client_answer :
    (mac : String) (x : Attrs)
    → detail_of (answer mac) ≡ some x
    → Brings encode decode FromClient
        (signatures_of upper sha dumps (active_rows upper [] list))
        (mac, x)
unfolding detail_of
client_answer mac x e =
    let q : detail ≡ x = ground (arith, e) in
    (λ t h. ap some (sym test_compact ∙ ap compact_detail q), ap compact_detail (sym q))

row_detail :
    (d : Compact)
    → decoded_within decode max_posture_cache_detail_bytes "{}" ≡ some d
    → d ≡ compact_detail detail
unfolding decoded_within
row_detail d e =
    let stored : Compact = record { texts = detail; other_attr_string_present = false } in
    let q : stored ≡ d = ground (arith, e) in sym q ∙ sym test_compact

collect-Shows_example :
    Shows encode decode FromClient
      (signatures_of upper sha dumps (active_rows upper [] list))
      (collect int_of float_of is_digits
        (λ p. true)
        upper
        sha
        dumps
        encode
        decode
        config
        9000000
        count_payload
        active
        answer
        (λ xs. xs)
        rows).0
    × All
        (RowFrom decode FromClient)
        (collect int_of float_of is_digits
          (λ p. true)
          upper
          sha
          dumps
          encode
          decode
          config
          9000000
          count_payload
          active
          answer
          (λ xs. xs)
          rows).1
collect-Shows_example =
    collect-Shows int_of float_of is_digits (λ p. true) upper sha dumps encode decode FromClient
      config 9000000 count_payload active answer (λ xs. xs) rows list test_rows
      (λ mac x e. client_answer mac x e) (row_detail, tt)

two_answers :
    Answers upper sha dumps
      (λ s. (refl, refl))
      int_of
      encode
      decode
      config
      9000000
      list
      answer
      (λ xs. xs)
unfolding detail_of
two_answers = record {
  completes = λ mac macs. refl;
  details = λ mac m. (detail, refl, ("{}", refl, refl, ap some (sym test_compact)));
}

collect-FreshCycle_example :
    (f : FreshCycle encode decode
      (signatures_of upper sha dumps (active_rows upper [] list))
      config
      9000000
      2
      2
      (selected_of upper sha dumps (λ s. (refl, refl)) config list)
      answer
      (λ xs. xs)
      rows)
    × (let done =
          collect int_of float_of is_digits
            (λ p. true)
            upper
            sha
            dumps
            encode
            decode
            config
            9000000
            count_payload
            active
            answer
            (λ xs. xs)
            rows in
        (done ≡ (some f.out, f.left))
        ⊎ ((done ≡ (none, f.left))
            × (Unreadable int_of float_of is_digits (λ p. true) f.out.usable ⊎ (true ≡ false))))
unfolding active_rows
collect-FreshCycle_example =
    collect-FreshCycle upper sha dumps (λ s. (refl, refl)) int_of encode decode config 9000000 list
      answer (λ xs. xs) float_of is_digits (λ p. true) count_payload active rows test_rows
      two_answers (refl, tt)

-- The same stored text is too long for a row.
abbrev refuse : Compact → Option String
refuse d = none

abbrev cached : Entry (Signed Compact)
cached = record {
  id = "00:11:22:33:44:55";
  detail = record {
    signature = "5e";
    detail = record { texts = detail; other_attr_string_present = false };
  };
  updated_at = 1000000;
}

test_entries : posture_entries decode ("00:11:22:33:44:55" ∷ []) rows ≡ some (cached ∷ [], rows)
unfolding posture_entries unique_after
test_entries = refl

test_oversized :
    any (is_oversized refuse) (
      bounded_details answer
        (planned (cached ∷ []) (λ mac. "5f") config 9000000 ("00:11:22:33:44:55" ∷ [])))
    ≡ true
unfolding planned bounded_details encoded_within unique_after
test_oversized = refl

cycle-oversized_example :
    cycle refuse decode
      (λ mac. "5f")
      config
      9000000
      2
      2
      ("00:11:22:33:44:55" ∷ [])
      answer
      (λ xs. xs)
      rows
    ≡ (none, rows)
cycle-oversized_example =
    cycle-oversized refuse decode (λ mac. "5f") config 9000000 2 2 ("00:11:22:33:44:55" ∷ []) answer
      (λ xs. xs) rows rows (cached ∷ []) test_entries test_oversized

count_all_bounds_example :
    (length (count_all str_eq 2 (map (λ (k : String). (k, "Other")) ("a" ∷ "b" ∷ "c" ∷ [])) []) ≤ 2)
    × (total (count_all str_eq 2 (map (λ (k : String). (k, "Other")) ("a" ∷ "b" ∷ "c" ∷ [])) [])
        ≡ 3)
count_all_bounds_example =
    count_all_bounds str_eq "Other" str_eq_refl 2 ("a" ∷ "b" ∷ "c" ∷ []) (omega arith)
