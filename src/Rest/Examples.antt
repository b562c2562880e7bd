-- ===== src/Rest/Examples.antt =====
-- An enumeration of two pages, and the theorems at concrete inputs.
use ise_exporter_v.Base.{
  ℕ, zero, suc, [], ◌∷◌, true, String, Option, none, some, ◌≡◌, refl, ◌↔◌, str_eq, if◌then◌else◌,
}
use ise_exporter_v.Base.Int.{pos}
use ise_exporter_v.Rest.Page.{proper, linked, no_next, Envelope, search_result, before_query}
use ise_exporter_v.Rest.Ers.{listed, get_ers}
use ise_exporter_v.Rest.Complete.{Listing, get_ers_iff}
use ise_exporter_v.Base.{◌≤◌, false, length, arith, List}
use ise_exporter_v.Base.Float.{seconds}
use ise_exporter_v.Rest.Transport.{
  Transport, Client, Exchange, Reply, response, get_json, buffer_response, max_http_response_bytes,
}
use ise_exporter_v.Rest.Body.{concat, declared_length, buffer_response_iff}
use ise_exporter_v.Rest.Backoff.{get_all, rejected-silent}

abbrev devices : String
devices = "/config/networkdevice"

abbrev first : Envelope String
first = search_result (record {
  resources = proper ("nad1" ∷ "nad2" ∷ []);
  total = some (pos 3);
  next_page = linked (proper "https://ise:9060/ers/config/networkdevice?page=2");
})

abbrev second : Envelope String
second =
    search_result
      (record { resources = proper ("nad3" ∷ []); total = some (pos 3); next_page = no_next })

abbrev server : ℕ → String → Option (Envelope String)
server zero path = some first
server (suc n) path = some second

two_pages : get_ers server devices true ≡ listed ("nad1" ∷ "nad2" ∷ "nad3" ∷ [])
unfolding get_ers
two_pages = refl

get_ers_iff_example :
    (get_ers server devices true ≡ listed ("nad1" ∷ "nad2" ∷ "nad3" ∷ []))
    ↔ Listing server devices ("nad1" ∷ "nad2" ∷ "nad3" ∷ [])
get_ers_iff_example = get_ers_iff server devices ("nad1" ∷ "nad2" ∷ "nad3" ∷ [])

-- Another server, which differs only on another resource.
abbrev leaky : ℕ → String → Option (Envelope String)
leaky n path = if str_eq (before_query path) devices then server n path else none

abbrev parse_bytes : List ℕ → Option (List ℕ)
parse_bytes body = some body

abbrev transport : Transport
transport = record {
  auth_failure_threshold = pos 3;
  auth_failure_backoff = pos 900;
  propagate_failures = false;
}

abbrev twice_rejected : Client
twice_rejected = record { guard = record { failures = 2; deadline = 0 }; sent = 2 }

abbrev exchange : ℕ → Reply → Exchange
exchange at reply = record {
  now = seconds at;
  failed_at = seconds at;
  stopping = false;
  check_works = true;
  record_works = true;
  reply = reply;
}

abbrev ok_reply : Reply
ok_reply = response 200 (some (pos 2)) ((1 ∷ []) ∷ (2 ∷ []) ∷ [])

rejected-silent_example :
    let after =
      (get_json parse_bytes transport
        (exchange 1000 (response 401 none []))
        true
        twice_rejected).0 in
    (after.sent ≡ 3)
    × ((get_all parse_bytes transport
          ((exchange 1100 ok_reply, true) ∷ (exchange 1899 ok_reply, true) ∷ [])
          after).sent
        ≡ after.sent)
rejected-silent_example =
    rejected-silent parse_bytes transport (exchange 1000 (response 401 none [])) none [] true
      ((exchange 1100 ok_reply, true) ∷ (exchange 1899 ok_reply, true) ∷ []) twice_rejected refl
      refl refl refl (omega arith) (omega arith)
      ((omega arith, omega arith), ((omega arith, omega arith), tt))

buffer_response_iff_example :
    (buffer_response (some (pos 2)) ((1 ∷ []) ∷ (2 ∷ []) ∷ []) ≡ some (1 ∷ 2 ∷ [])) ↔ (
      (1 ∷ 2 ∷ [] ≡ concat ((1 ∷ []) ∷ (2 ∷ []) ∷ []))
      × (length (concat ((1 ∷ []) ∷ (2 ∷ []) ∷ [])) ≤ max_http_response_bytes)
      × (declared_length (some (pos 2)) ≤ max_http_response_bytes))
buffer_response_iff_example =
    buffer_response_iff (some (pos 2)) ((1 ∷ []) ∷ (2 ∷ []) ∷ []) (1 ∷ 2 ∷ [])
