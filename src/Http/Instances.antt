-- ===== src/Http/Instances.antt =====
-- `OrchestratorHandler` (internal/infrastructure/http/handlers/orchestrator_handler.go): the log
-- store, the control token, and the instances. The two slices of the store grow and shrink together,
-- so the loops over their indices run over the pairs of entries here.
use mathlib.Core.List.{reverse, zip}
use o2ul_portal.Common.{
  ℕ, zero, suc, ◌+◌, ◌-◌, ◌≤◌, String, Bool, true, false, not, ◌&&◌, ◌||◌, Option, none, some, List,
  [], ◌∷◌, ◌++◌, ◌==◌, nat_eq, ltb, leb, is_blank, length, drop, trim_space, strip_prefix,
  if◌then◌else◌, Result, ok, err, Error,
}
use o2ul_portal.Common.Int.{ℤ, pos, pos_part, leb_ℤ}
use o2ul_portal.Common.Numbers.{atoi}
use o2ul_portal.Http.{Response, failed, json, refuse}
use o2ul_portal.Orchestrator.{Instance, Moment, Manager}
use o2ul_portal.Orchestrator
pub mod Logs
pub mod Limit
pub mod Control

-- an entry, a json.RawMessage
abbrev pub Raw : Type 0
Raw = String

-- A time is a count of nanoseconds from Go's zero time.
pub record LogStore : Type 0 where
  pub logs : List Raw
  pub log_times : List ℕ

abbrev pub empty_store : LogStore
empty_store = record { logs = []; log_times = [] }

abbrev pub max_logs : ℕ
max_logs = 1000

-- `xs[len(xs)-n:]`
abbrev pub newest {ℓ} : {A : Type ℓ} → ℕ → List A → List A
newest n xs = drop (length xs - n) xs

-- `ts, _ := extractLogTimestamp(raw)`: the zero time if the entry has none
unfoldable pub extract_log_timestamp : (Raw → Result ℕ) → Raw → ℕ
extract_log_timestamp unmarshal entry = elim (unmarshal entry) [ err e ↦ 0 | ok time ↦ time ]

unfoldable pub append_log : Raw → ℕ → LogStore → LogStore
append_log raw time store =
    let logs = store.logs ++ raw ∷ [] in
    let times = store.log_times ++ time ∷ [] in
    if ltb max_logs (length logs)
    then record { logs = newest max_logs logs; log_times = newest max_logs times }
    else record { logs = logs; log_times = times }

-- IngestLog, on the decoded body
unfoldable pub ingest_log :
    (Raw → Result ℕ) → Result Raw → LogStore → Response (Unit {0}) × LogStore
ingest_log unmarshal (err e) store = (refuse 400 "invalid payload", store)
ingest_log unmarshal (ok raw) store =
    (json 202 tt, append_log raw (extract_log_timestamp unmarshal raw) store)

-- `!ts.IsZero() && ts.Before(since)`
abbrev pub is_stale : ℕ → ℕ → Bool
is_stale since time = not (nat_eq time 0) && ltb time since

-- the loop over all entries
pub collect : ℕ → List (Raw × ℕ) → List Raw
collect since [] = []
collect since ((raw, time) ∷ later) =
    let rest = collect since later in if is_stale since time then rest else raw ∷ rest

-- the loop from the newest entry back, up to a limit
pub collect_back : ℕ → ℕ → List (Raw × ℕ) → List Raw → List Raw
collect_back since limit [] out = out
collect_back since limit ((raw, time) ∷ older) out =
    let rest =
      collect_back since limit older (if is_stale since time then out else out ++ raw ∷ []) in
    if ltb (length out) limit then rest else out

-- reverseRawMessages turns the list round in place.
unfoldable pub select_logs : LogStore → Option ℕ → ℕ → List Raw
unfolding collect collect_back
select_logs store none limit =
    if ltb 0 limit && ltb limit (length store.logs) then newest limit store.logs else store.logs
select_logs store (some since) limit =
    let entries = zip store.logs store.log_times in
    if ltb 0 limit
    then reverse (collect_back since limit (reverse entries) [])
    else collect since entries

-- a limit of the query: 0 if there is none, 1000 at most
unfoldable pub parse_limit : String → Option ℕ
parse_limit raw = if is_blank raw then some 0 else elim (atoi (trim_space raw)) [
  | none ↦ none
  | some v ↦
      if leb_ℤ v (pos 0) then none else some (if ltb 1000 (pos_part v) then 1000 else pos_part v)
]

-- `parse_time` is time.Parse at RFC 3339.
unfoldable pub list_logs : (String → Option ℕ) → String → String → LogStore → Response (List Raw)
list_logs parse_time raw_since raw_limit store =
    elim (if is_blank raw_since then some none else wrap (parse_time (trim_space raw_since))) [
      | none ↦ refuse 400 "invalid since; expected RFC3339"
      | some since ↦ elim (parse_limit raw_limit) [
        | none ↦ refuse 400 "invalid limit; expected positive integer"
        | some limit ↦ json 200 (select_logs store since limit)
      ]
    ]
  where
    wrap : Option ℕ → Option (Option ℕ)
    wrap none = none
    wrap (some since) = some (some since)

-- the token of the two headers
unfoldable pub provided_token : String → String → String
provided_token x_token authorization =
    let provided = trim_space x_token in
    if not (provided == "")
    then provided
    else elim (strip_prefix "Bearer " (trim_space authorization)) [
      | none ↦ ""
      | some token ↦ trim_space token
    ]

-- Shutdown; the flag says whether shutdownFn is called, if there is one
unfoldable pub shutdown : String → String → String → Response (Unit {0}) × Bool
shutdown control_token x_token authorization =
    let provided = provided_token x_token authorization in
    if is_blank control_token
    then (refuse 503 "control token is not configured", false)
    else if provided == "" || not (provided == control_token)
    then (refuse 403 "forbidden", false)
    else (json 202 tt, true)

-- HasControlTokenForRequest of internal/infrastructure/http/router.go
unfoldable pub has_control_token : String → String → String → Bool
has_control_token control_token x_token authorization =
    let x = trim_space x_token in
    if is_blank control_token
    then false
    else if not (x == "")
    then x == control_token
    else elim (strip_prefix "Bearer " (trim_space authorization)) [
      | none ↦ false
      | some token ↦ trim_space token == control_token
    ]

pub record SpawnRequest : Type 0 where
  pub service : String
  pub command : String
  pub args : List String

module _ {S : Type 0} (manager : Manager S) where
  unfoldable pub spawn_instance : Moment → Result SpawnRequest → S → Response Instance × S
  spawn_instance m (err e) s = (refuse 400 "invalid payload", s)
  spawn_instance m (ok req) s =
      let (spawned, t) = Orchestrator.spawn manager m req.service req.command req.args s in
      elim spawned [ err e ↦ (failed 400 e, t) | ok i ↦ (json 201 i, t) ]

  unfoldable pub despawn_instance : Moment → String → S → Response (Unit {0}) × S
  despawn_instance m id s =
      let (despawned, t) = Orchestrator.despawn manager m id s in
      elim despawned [ err e ↦ (failed 404 e, t) | ok done ↦ (json 200 tt, t) ]

  unfoldable pub list_response : S → Response (List Instance)
  list_response s = json 200 (Orchestrator.list_instances manager s)
