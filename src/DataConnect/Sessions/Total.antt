-- ===== src/DataConnect/Sessions/Total.antt =====
-- ise_exporter/clients/dataconnect.py: a run of queries and batches, and the share of time in which the database works.
use ise_exporter_v.Base.{ℕ, ◌+◌, List, [], ◌∷◌, some}
use ise_exporter_v.DataConnect.Pacing.{Settings}
use ise_exporter_v.DataConnect.Gate.{Content}
use ise_exporter_v.DataConnect.Query.{Ask, Client, query}
use ise_exporter_v.DataConnect.Batch.{Batch, query_many}
use ise_exporter_v.DataConnect.Sessions.Account.{kept_file}
use ise_exporter_v.DataConnect.Sessions.Single.{query_work, Fair}
use ise_exporter_v.DataConnect.Sessions.Many.{batch_work, FairBatch}

-- A call of one of the clients.
pub data Session (Row : Type 0) : Type 0 where
  one : Client → Ask Row → Session Row
  many : Client → Batch Row → Session Row

module _ {Row : Type 0} where
  abbrev pub session_file : Settings → Session Row → Content → Content
  session_file s (one c q) f = kept_file (query s q (some f) c).0.1 f
  session_file s (many c b) f = kept_file (query_many s b (some f) c).0.1 f

  abbrev pub session_work : Settings → Session Row → Content → ℕ
  session_work s (one c q) f = query_work s q f c
  session_work s (many c b) f = batch_work s b f c

  abbrev pub FairSession : Settings → Session Row → Content → Type 0
  FairSession s (one c q) f = Fair s q f
  FairSession s (many c b) f = FairBatch s b f c

  -- The calls in turn: the file after them, and their work.
  unfoldable pub run_sessions : Settings → List (Session Row) → Content → Content × ℕ
  run_sessions s [] f = (f, 0)
  run_sessions s (x ∷ xs) f =
      let (last, total) = run_sessions s xs (session_file s x f) in
      (last, session_work s x f + total)

  abbrev pub AllFair : Settings → List (Session Row) → Content → Type 0
  AllFair s [] f = Unit {0}
  AllFair s (x ∷ xs) f = FairSession s x f × AllFair s xs (session_file s x f)
