-- ===== src/DataConnect/Examples.antt =====
-- ise_exporter/clients/dataconnect.py: runs at concrete inputs.
use ise_exporter_v.Base.{
  ℕ, ◌+◌, ◌≤◌, max, [], ◌∷◌, true, false, none, some, if◌then◌else◌, ◌≡◌, refl, arith, ◌-◌,
}
use ise_exporter_v.Base.Int.{pos}
use ise_exporter_v.Base.Float.{finite}
use ise_exporter_v.DataConnect.Pacing.{Settings, failure_threshold}
use ise_exporter_v.DataConnect.Gate.{deadline, Turn, freed}
use ise_exporter_v.DataConnect.Connect.{Link, rejected, accepted, Attempt}
use ise_exporter_v.DataConnect.Rows.{Kept, fetch_rows}
use ise_exporter_v.DataConnect.Query.{Try, fetched, Ask, Client}
use ise_exporter_v.DataConnect.Batch.{Statement, Batch, first_state, run_batch}
use ise_exporter_v.DataConnect.Ceilings.{fits, fetch_rows_iff}
use ise_exporter_v.DataConnect.Results.{Bounded, first_state-Bounded}
use ise_exporter_v.DataConnect.Dials.{RefusedIn, connects, connects_bound}

abbrev ten_percent : Settings
ten_percent = record {
  query_timeout = pos 10;
  auth_failure_threshold = pos 3;
  auth_failure_backoff = pos 300;
  min_query_interval_ms = pos 500;
  max_duty_cycle_percent = finite (pos 10000000);
}

abbrev dial : Attempt
dial = record {
  wall = 100;
  mono = 100;
  failed_wall = 200;
  failed_mono = 200;
  guard_works = true;
  record_works = true;
  dial = accepted;
}

abbrev refused_dial : Attempt
refused_dial = record dial { dial = rejected (record { retryable = true; authentication = false }) }

abbrev two_rows : Try ℕ
two_rows = record { attempt = dial; execution = fetched ((7, 40) ∷ (8, 40) ∷ []) }

abbrev at_gate : Turn
at_gate = record { usable = true; lock = freed; now = 2000; wait_ends = true; leased_at = 2005 }

abbrev ask : Ask ℕ
ask = record {
  wait_for_pacing = true;
  adaptive_duty = true;
  mono = 10;
  local_wait_ends = true;
  turn = at_gate;
  gate_finished = 0;
  gate_duration = 0;
  first = two_rows;
  second = two_rows;
  duration = 3000000;
  finished = 3000010;
  released = 3002100;
  release_works = true;
}

abbrev statement : Statement ℕ
statement = record {
  gap_ends = true;
  lease_at = 40000000;
  first = two_rows;
  second = two_rows;
  duration = 1000000;
  done_at = 41000000;
  done_works = true;
}

abbrev two_statements : Batch ℕ
two_statements = record {
  mono = 10;
  local_wait_ends = true;
  turn = record at_gate { now = 35000000; leased_at = 35000005 };
  statements = statement ∷ statement ∷ [];
  finished = 60000000;
  released = 60000000;
  release_works = true;
}

abbrev closed : Link
closed = record {
  open_ = false;
  connect_failures = 0;
  blocked_until = 0;
  guard = record { failures = 0; deadline = 0 };
  dialled = 0;
}

abbrev client : Client
client = record { link = closed; next_query_at = 0 }

first_state-Bounded_example :
    Bounded 0 2
      (run_batch ten_percent true (statement ∷ statement ∷ []) (first_state client none)).1
first_state-Bounded_example =
    first_state-Bounded ten_percent (statement ∷ statement ∷ []) client none

abbrev in_batch : Kept
in_batch = record { batch_active = true; batch_rows = 11999; batch_bytes = 100 }

fetch_rows_iff_example :
    fetch_rows {Row = ℕ} in_batch [] 0 ((7, 40) ∷ (8, 40) ∷ [])
    ≡ (if fits in_batch 2 80 then some (7 ∷ 8 ∷ [], 80) else none)
fetch_rows_iff_example = fetch_rows_iff {Row = ℕ} in_batch ((7, 40) ∷ (8, 40) ∷ []) refl

refusal : RefusedIn ten_percent 0 refused_dial
refusal = ((record { retryable = true; authentication = false }, refl), omega arith, omega arith)

connects_bound_example :
    (connects ten_percent
      (refused_dial ∷ refused_dial ∷ refused_dial ∷ refused_dial ∷ refused_dial ∷ [])
      closed).dialled
    ≤ 0 + max 1 (failure_threshold ten_percent - 0)
connects_bound_example =
    connects_bound ten_percent 0
      (refused_dial ∷ refused_dial ∷ refused_dial ∷ refused_dial ∷ refused_dial ∷ []) closed refl
      (refusal, (refusal, (refusal, (refusal, (refusal, tt)))))
