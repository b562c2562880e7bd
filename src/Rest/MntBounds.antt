-- ===== src/Rest/MntBounds.antt =====
-- ise_exporter/clients/rest.py: the bounds of _parse_mnt_xml.
use ise_exporter_v.Base.{
  ◌+◌, ◌≤◌, List, [], ◌∷◌, false, Option, none, some, get_or, String, str_eq, length, length-append,
  ltb, ◌≡◌, refl, sym, ◌∙◌, arith, All, All-append, Bool-cases, Option-cases, inl, inr,
}
use mathlib.Core.Path.{subst}
use ise_exporter_v.Helpers.Attrs.{Attrs, set}
use ise_exporter_v.Helpers.Text.{strip}
use ise_exporter_v.Rest.MntXml.{
  max_xml_elements, max_xml_depth, max_xml_sessions, max_xml_fields_per_session, XmlEvent, start,
  end, Parser, no_events, open_record, on_start, parent_name, store_text, store_detail, store_auth,
  store_active, close_record, process_event, process_events,
}

-- A record with at most as many fields as the limit.
abbrev pub IsSmall : Attrs → Type 0
IsSmall s = length s ≤ max_xml_fields_per_session

pub record IsBounded (p : Parser) : Type 0 where
  pub elements : p.elements ≤ max_xml_elements
  pub depth : length p.stack ≤ max_xml_depth
  pub active : length p.active_sessions ≤ max_xml_sessions
  pub auth : length p.auth_sessions ≤ max_xml_sessions
  pub active_small : All IsSmall p.active_sessions
  pub auth_small : All IsSmall p.auth_sessions
  pub active_open : length (get_or p.active_record []) ≤ p.active_fields
  pub auth_open : length (get_or p.auth_record []) ≤ p.auth_fields
  pub active_fields : p.active_fields ≤ max_xml_fields_per_session
  pub auth_fields : p.auth_fields ≤ max_xml_fields_per_session

length-set : (k v : String) (attrs : Attrs) → length (set k v attrs) ≤ length attrs + 1
unfolding set
length-set k v [] = omega arith
length-set k v ((j, w) ∷ attrs) = let ih = length-set k v attrs in ground (arith, ih)

open_record-IsBounded :
    (name : String) (p q : Parser) → IsBounded p → open_record name p ≡ some q → IsBounded q
unfolding open_record
open_record-IsBounded name p q b h = ground (arith, h)

on_start-IsBounded :
    (name : String) (total : Option String) (p q : Parser)
    → IsBounded p
    → on_start name total p ≡ some q
    → IsBounded q
unfolding on_start
on_start-IsBounded name total p q b h =
    let opened : Parser = record p {
      stack = name ∷ p.stack;
      elements = p.elements + 1;
      raw_total = elim p.stack [ [] ↦ total | _ ∷ _ ↦ p.raw_total ];
    } in
    let e : ltb max_xml_elements (p.elements + 1) ≡ false = ground (arith, h) in
    let d : ltb max_xml_depth (length p.stack + 1) ≡ false = ground (arith, h, e) in
    let c : on_start name total p ≡ open_record name opened = rw (e, d, on_start) refl in
    let bounded : IsBounded opened = record {
      elements = ground (arith, e);
      depth = ground (arith, d);
      active = b.active;
      auth = b.auth;
      active_small = b.active_small;
      auth_small = b.auth_small;
      active_open = b.active_open;
      auth_open = b.auth_open;
      active_fields = b.active_fields;
      auth_fields = b.auth_fields;
    } in
    open_record-IsBounded name opened q bounded (sym c ∙ h)

store_detail-IsBounded :
    (name text : String) (p q : Parser)
    → IsBounded p
    → store_detail name text p ≡ some q
    → IsBounded q
store_detail-IsBounded name text p q b h = ground (arith, h)

store_auth-IsBounded :
    (o : Option Attrs) (name text : String) (p q : Parser)
    → p.auth_record ≡ o
    → IsBounded p
    → store_auth o name text p ≡ some q
    → IsBounded q
store_auth-IsBounded none name text p q n b h = store_detail-IsBounded name text p q b h
store_auth-IsBounded (some r) name text p q n b h =
    elim (Bool-cases (str_eq (parent_name p.stack) "authStatusElements")) [
      | inl e ↦ ground (arith, h, e, n, length-set name text r)
      | inr e ↦
          let c : store_auth (some r) name text p ≡ store_detail name text p = rw e refl in
          store_detail-IsBounded name text p q b (sym c ∙ h)
    ]

store_active-IsBounded :
    (o : Option Attrs) (name text : String) (p q : Parser)
    → p.active_record ≡ o
    → IsBounded p
    → store_active o name text p ≡ some q
    → IsBounded q
store_active-IsBounded none name text p q n b h =
    store_auth-IsBounded p.auth_record name text p q refl b h
store_active-IsBounded (some r) name text p q n b h =
    elim (Bool-cases (str_eq (parent_name p.stack) "activeSession")) [
      | inl e ↦ ground (arith, h, e, n, length-set name text r)
      | inr e ↦
          let c : store_active (some r) name text p ≡ store_auth p.auth_record name text p =
            rw e refl in
          store_auth-IsBounded p.auth_record name text p q refl b (sym c ∙ h)
    ]

store_text-IsBounded :
    (name text : String) (p q : Parser)
    → IsBounded p
    → store_text name text p ≡ some q
    → IsBounded q
unfolding store_text
store_text-IsBounded name text p q b h =
    store_active-IsBounded p.active_record name text p q refl b h

close_record-IsBounded :
    (name : String) (p q : Parser) → IsBounded p → close_record name p ≡ some q → IsBounded q
unfolding close_record
close_record-IsBounded name p q b h =
    let act = get_or p.active_record [] in
    let aut = get_or p.auth_record [] in
    let sa : IsSmall act = omega (arith, b.active_open, b.active_fields) in
    let su : IsSmall aut = omega (arith, b.auth_open, b.auth_fields) in
    let all_act = All-append IsSmall p.active_sessions (act ∷ []) b.active_small (sa, tt) in
    let all_aut = All-append IsSmall p.auth_sessions (aut ∷ []) b.auth_small (su, tt) in
    let la = length-append p.active_sessions (act ∷ []) in
    let lu = length-append p.auth_sessions (aut ∷ []) in ground (arith, h, all_act, all_aut, la, lu)

process_event-IsBounded :
    (e : XmlEvent) (p q : Parser) → IsBounded p → process_event e p ≡ some q → IsBounded q
unfolding process_event
process_event-IsBounded (start name total) p q b h = on_start-IsBounded name total p q b h
process_event-IsBounded (end name text) p q b h =
    elim (Option-cases (store_text name (strip text) p)) [
      | inl n ↦ let c : process_event (end name text) p ≡ none = rw (n, process_event) refl in cc
      | inr (r, n) ↦
          let c : process_event (end name text) p ≡ close_record name r =
            rw (n, process_event) refl in
          close_record-IsBounded name r q (store_text-IsBounded name (strip text) p r b n)
            (sym c ∙ h)
    ]

process_events-IsBounded :
    (es : List XmlEvent) (p q : Parser) → IsBounded p → process_events es p ≡ some q → IsBounded q
unfolding process_events
process_events-IsBounded [] p q b h =
    let e : p ≡ q = ground (arith, h) in subst (λ x. IsBounded x) e b
process_events-IsBounded (e ∷ es) p q b h = elim (Option-cases (process_event e p)) [
  | inl n ↦ let c : process_events (e ∷ es) p ≡ none = rw (n, process_events) refl in cc
  | inr (r, n) ↦
      let c : process_events (e ∷ es) p ≡ process_events es r = rw (n, process_events) refl in
      process_events-IsBounded es r q (process_event-IsBounded e p r b n) (sym c ∙ h)
]

-- Whatever the document is, and wherever its events end, a parser that has not raised has seen at
-- most 2,000,000 elements, at most 64 of them open, and holds at most 250,000 records of each kind,
-- each with at most 128 fields.
pub parse-IsBounded :
    (es : List XmlEvent) (p : Parser) → process_events es no_events ≡ some p → IsBounded p
parse-IsBounded es p h =
    process_events-IsBounded es no_events p
      (record {
        elements = omega arith;
        depth = omega arith;
        active = omega arith;
        auth = omega arith;
        active_small = tt;
        auth_small = tt;
        active_open = omega arith;
        auth_open = omega arith;
        active_fields = omega arith;
        auth_fields = omega arith;
      })
      h
