-- ===== src/Rest/MntExamples.antt =====
-- The events of an active list with one session.
use ise_exporter_v.Base.{List, [], ◌∷◌, none, some, str_eq, if◌then◌else◌, ◌≡◌, refl}
use ise_exporter_v.Base.Int.{pos}
use ise_exporter_v.Rest.Transport.{done, refused, invalid_response}
use ise_exporter_v.Rest.MntXml.{
  XmlEvent, start, end, Parser, no_events, process_events, sessions_of,
}
use ise_exporter_v.Rest.MntBounds.{IsBounded, parse-IsBounded}

abbrev active_list : List XmlEvent
active_list =
    start "activeList" (some "1")
    ∷ start "activeSession" none
    ∷ start "user_name" none
    ∷ end "user_name" " ann "
    ∷ end "activeSession" ""
    ∷ end "activeList" ""
    ∷ []

abbrev parsed : Parser
parsed = record no_events {
  elements = 3;
  raw_total = some "1";
  active_sessions = (("user_name", "ann") ∷ []) ∷ [];
  active_fields = 1;
}

parsed_test : process_events active_list no_events ≡ some parsed
unfolding process_events
parsed_test = refl

sessions_test :
    sessions_of (λ t. if str_eq t "1" then some (pos 1) else none) parsed
    ≡ done (record { total = pos 1; sessions = (("user_name", "ann") ∷ []) ∷ [] })
unfolding sessions_of
sessions_test = refl

mismatch_test : sessions_of (λ t. some (pos 2)) parsed ≡ refused invalid_response
unfolding sessions_of
mismatch_test = refl

parse-IsBounded_example : IsBounded parsed
parse-IsBounded_example = parse-IsBounded active_list parsed parsed_test
