-- ===== src/Lib.antt =====
-- Cisco ISE exporter: a verification library for the core of ise_exporter.
--
-- The exporter polls Cisco ISE (REST and pxGrid APIs, the MnT API and the Data Connect database) and
-- publishes Prometheus metrics. A scheduler decides when each dataset is collected, collectors read
-- pages or rows through rate-limited clients, and an authentication guard and a state file survive
-- restarts. The development follows these parts; each module names its source file.
--
--   AuthGuard       ise_exporter/auth_guard.py: the shared counter of failed logins.
--     State         the pure step of each call: blocked, failure, success
--     File          the guard's file, one line of text: _open, _read, _write and _update
--     Calls         sequences of calls, on the state and on the file
--     Lockout, Persistence, Overflow  the theorems, on the state and on the file
--   Scheduler       ise_exporter/scheduler.py
--     Deadline      _next_deadline and _due
--     Queue         _AgingDataConnectQueue: put, get_nowait, _pop_best_locked, task_done
--     Run           _run, _failure_retry, _update_dataset_freshness, _recover_worker_exception, with
--                   observe and record_failure of ise_exporter/collectors/__init__.py
--     Plans         _dataset_plan and the intervals of __init__
--     Startup       _wait_for_startup_slot
--     Lane          the Data Connect lane: _run_dataconnect, the two schema gates, the worker's loop, start,
--                   stop and discard; Reachable has the interleavings of its threads, where the worker's get(),
--                   its two sections under the lock and its task_done() are steps of their own
--   Tail            ise_exporter/collectors/dataconnect_tail.py: counting the new rows of a view
--     Query         the statements, as selections from the rows of the view
--     Engine        tail_counters, with the cursor of ise_exporter/state.py
--     Groups, Window, Prefix  what one execution counts; Once and Reset: sequences of cycles
--   Rest            ise_exporter/clients/rest.py: requests, and the enumeration of an ERS resource
--     Transport     _request_serialized, _buffer_response, _record_auth_failure, _record_auth_success,
--                   _get_json, on the guard's state of AuthGuard.State
--     Body, Backoff the bound on a body, and the guard around the requests
--     Page          what the code reads of a decoded page, and the test on its link
--     Ers           get_ers and get_ers_total
--     Walk, Complete, Requests  which lists it returns, and which requests it makes
--     Pan, PanWalk, PanComplete  get_pan_api_all, and which lists it returns
--     MntXml        _parse_mnt_xml, on the events of its pull parser, and the end of get_mnt_xml; MntBounds
--   Snapshots       ise_exporter/snapshots.py: atomic replacement of metric families
--     Store         families, with their children as cells that a copy of the map shares
--     Replace       _replace_metric_snapshots and its two validations
--     Persist       serialize_metric_snapshot and restore_metric_snapshot
--     Checked, Rollback, Items, RoundTrip  what a replacement leaves, and the payload read back
--   DataConnect     ise_exporter/clients/dataconnect.py: the paced Data Connect client
--     Pacing        the constructor's settings, and the lengths of the cooldowns
--     Gate          _shared_gate and _release_shared_gate on the pacing file
--     Connect       connect and close, on the guard's state of AuthGuard.State
--     Rows          the fetch loop of _query
--     Query, Batch  _query outside a batch, and query_many with its statements
--     Lease, Duty, Ceilings, Results, Dials  what a turn leaves, the duty cycle, the ceilings, the dials
--     Sessions      calls of several clients that share one pacing file
--   State           ise_exporter/state.py
--     Reset         reset_exporter_state, and Whole: which files a reset removes
--     Cache, Tables the statements on a cache table, and the four caches of details
--     Keyed, Selection, Read, Total, Refines  a table as a map from keys to rows
--   Helpers         ise_exporter/util.py: Text, Mac, Attrs, Steps and Label
--     MacLaws       the normal form of an address
--   Posture         ise_exporter/collectors/mnt_active_posture.py: the snapshot of endpoint details
--     Session       the rows of the active list, their addresses and signatures
--     Detail        _detail and _compact_detail
--     Plan          the selection and the refresh plan, with Sort
--     Collect       collect, on the posture cache of State.Tables, to the point where it publishes
--     Groups        the bounded counters of _aggregate
--     Provenance, Invariant, Current  where the shown details come from
--     Puts, Bounds, Usable, Fresh, Answered, Rows, Whole  a cycle whose requests are answered
--     Oversized     a cycle that a put ends
--   Base            numbers, lists and Python values that the parts share.
--
-- The scheduler puts a dataset's name in a lane queue when _due says so; a worker takes the best item
-- (Lane, on Queue) and calls _run, which runs the collector through observe and settles the dataset's
-- next deadline.
-- The REST client keeps AuthGuard's state across its requests, and so does the Data Connect client across
-- its connections. The posture collector runs on the cache of State and the
-- sessions of Rest.MntXml. The other parts share no state: Run is stated on one dataset's entry of the
-- scheduler's maps, with what a callback did (its observations, whether an exception left it) as an
-- argument.
--
-- Units and bounds. Times and durations are counts of microseconds (Base/Float: seconds), so sums and
-- comparisons are exact where the source rounds binary floats. Python integers are unbounded, so
-- are the numbers here. Loops are structural recursion on the list that the source walks. The page loop
-- of get_ers recurses on the number of pages that its own bound ERS_MAX_PAGES still allows, that of
-- get_pan_api_all on the pages that max_pages allows, and _discard_dataconnect_pending on the length of
-- the queue, so no result stands for a bound that the source lacks.
--
-- Parameters. How int(), float() and the formats of the guard's line read and write numbers, and the
-- instance key, are parameters of AuthGuard.File, with what they do on a written line as the hypothesis
-- that theorems name.
--
-- What a metric writer does inside prometheus_client is an argument of Snapshots.Replace: a writer is
-- any function on the store, with whether it raises.
--
-- What the clocks, the pacing file's lock, the file system and oracledb do is an argument of
-- DataConnect: one record for a turn at the gate, an attempt to connect, a query or a batch. A write of
-- the pacing file succeeds or leaves the file. Duty cycles are in millionths of a percent, and a cooldown is
-- rounded down to a microsecond. Exact sizes of values (_materialized_size) come with the rows.
--
-- What the file system answers at each stage of a reset is an argument of State.Reset, and so is the
-- absolute path of a path.
--
-- The answers of the MnT client, the order in which its requests complete, json.dumps, json.loads,
-- SHA-256, int(), float(), str.isdigit() and str.upper() are arguments of Posture and Helpers. A dict of the client is a list of
-- its items, from tags to texts, which is what get_mnt_xml gives. A table of State.Cache is a list of
-- rows: its primary key is the condition Keyed that theorems name, and an exception before a commit leaves
-- the rows of the last commit.
--
-- The JSON answers of ISE are a parameter of Rest.Ers and Rest.Pan (one answer per call), and
-- metric_label is one of Tail.Engine.
--
-- Not modelled: logging, the publication of metrics (Posture.Collect has the point at which the posture
-- collection publishes or fails), file ownership and permission checks, and the third-party clients
-- (requests, oracledb, prometheus_client). Locks and condition variables are not modelled as such. An
-- operation is one step where the source runs it under its lock, and where one thread alone runs it,
-- as __init__, the start, the stop and the discard of the lane. The lane's worker is several steps, since
-- get() and task_done() lie outside the lane's lock, and so may be _run_dataconnect, whose schema gate
-- comes before the lock.
mod Base
pub mod AuthGuard
pub mod Scheduler
pub mod Tail
pub mod Rest
pub mod Snapshots
pub mod DataConnect
pub mod State
pub mod Helpers
pub mod Posture
