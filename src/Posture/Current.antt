-- ===== src/Posture/Current.antt =====
-- ise_exporter/collectors/mnt_active_posture.py: the invariant of the posture cache, for a whole
-- collection.
use ise_exporter_v.Base.{
  ℕ, List, [], Bool, String, Option, none, some, ◌≡◌, All, length, map, if-elim, ◌&&◌,
}
use ise_exporter_v.Base.Float.{PyFloat}
use ise_exporter_v.Base.Int.{ℤ}
use ise_exporter_v.Helpers.Attrs.{Attrs}
use ise_exporter_v.Posture.Session.{MntSessions, active_rows}
use ise_exporter_v.Posture.Detail.{Compact, detail_of}
use ise_exporter_v.Posture.Plan.{PostureConfig, select}
use ise_exporter_v.Posture.Collect.{
  Table, Published, is_aggregated, emit, collect, session_rows, signatures_of,
}
use ise_exporter_v.Posture.Provenance.{RowFrom}
use ise_exporter_v.Posture.Invariant.{Brings, Shows, cycle-Shows}

emit-Shows :
    (int_of : String → Option ℤ) (float_of : String → Option PyFloat) (is_digits : String → Bool)
    (replaced : Published → Bool) (encode : Compact → Option String)
    (decode : String → Option Compact) (P : String → String → Compact → Type 0)
    (signatures : String → String) (p : Option Published)
    → Shows encode decode P signatures p
    → Shows encode decode P signatures (emit int_of float_of is_digits replaced p)
unfolding emit
emit-Shows int_of float_of is_digits replaced encode decode P signatures none h = h
emit-Shows int_of float_of is_digits replaced encode decode P signatures (some p) h =
    if-elim (Shows encode decode P signatures)
      (is_aggregated int_of float_of is_digits replaced p.usable && replaced p) (λ y. h) (λ n. tt)

-- Let P hold of every stored detail that can be read, under its endpoint and its session signature,
-- and of every detail that the client gives in this cycle, under the signature of the endpoint's
-- row in the active list. Then P holds again of every stored detail after a collection, and
-- everything published has the signature of the current row of its endpoint, with P under it:
-- nothing of an older session or another endpoint is shown, whichever requests fail, in whichever
-- order they complete, and wherever an error ends the cycle. (What json.dumps wrote of a given
-- detail is assumed to load as that detail.)
pub collect-Shows :
    (int_of : String → Option ℤ) (float_of : String → Option PyFloat) (is_digits : String → Bool)
    (replaced : Published → Bool) (upper sha : String → String) (dumps : Attrs → String)
    (encode : Compact → Option String) (decode : String → Option Compact)
    (P : String → String → Compact → Type 0) (cfg : PostureConfig) (now : ℕ)
    (count_payload active : Option MntSessions) (answer : String → Option MntSessions)
    (order : List String → List String) (rows : Table) (list : List Attrs)
    → session_rows int_of cfg count_payload active ≡ some list
    → ((mac : String) (x : Attrs)
        → detail_of (answer mac) ≡ some x
        → Brings encode decode P
            (signatures_of upper sha dumps (active_rows upper [] list))
            (mac, x))
    → All (RowFrom decode P) rows
    → Shows encode decode P
        (signatures_of upper sha dumps (active_rows upper [] list))
        (collect int_of float_of is_digits replaced upper sha dumps encode decode cfg now
          count_payload active answer order rows).0
      × All
          (RowFrom decode P)
          (collect int_of float_of is_digits replaced upper sha dumps encode decode cfg now
            count_payload active answer order rows).1
unfolding collect
collect-Shows int_of float_of is_digits replaced upper sha dumps encode decode P cfg now
      count_payload active answer order rows list e brings h =
    let entries = active_rows upper [] list in
    let candidates = map (λ (x : String × Attrs). x.0) entries in
    let shown =
      cycle-Shows encode decode P (signatures_of upper sha dumps entries) cfg now (length list)
        (length candidates) (select sha cfg candidates) answer order brings rows h in
    rw (e, collect)
      (
        emit-Shows int_of float_of is_digits replaced encode decode P
            (signatures_of upper sha dumps entries) _ shown.0,
        shown.1,
      )
