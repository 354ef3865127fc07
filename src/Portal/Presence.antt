-- ===== src/Portal/Presence.antt =====
-- `O2ULPresenceService` (internal/application/o2ul_presence_service.go), `Presence` and `Metrics`
-- (internal/domain/o2ul_presence/presence.go), and `StrataO2ULPresenceRepository`
-- (internal/infrastructure/db/o2ul_presence_strata.go). Times are milliseconds.
use o2ul_portal.Common.{
  ℕ, suc, ◌+◌, ◌*◌, ◌/◌, String, Bool, true, false, ◌&&◌, ◌||◌, List, [], ◌∷◌, map, ◌==◌,
  if◌then◌else◌, Result, ok, err, not_found,
}
use o2ul_portal.Common.Int.{ℤ, pos, ◌-ℤ◌, leb_ℤ}
use o2ul_portal.Store.{Table, query_all, missing_as}
pub mod Metrics

pub record Presence : Type 0 where
  pub user_id : String
  pub is_online : Bool
  pub last_seen : ℤ
  pub presence_status : String
  pub last_active : ℤ

pub record PresenceRecord : Type 0 where
  pub user_key : String
  pub is_online : Bool
  pub last_seen : ℤ
  pub presence_status : String
  pub last_active : ℤ

abbrev pub to_presence_record : Presence → PresenceRecord
to_presence_record p = record {
  user_key = p.user_id;
  is_online = p.is_online;
  last_seen = p.last_seen;
  presence_status = p.presence_status;
  last_active = p.last_active;
}

abbrev pub from_presence_record : PresenceRecord → Presence
from_presence_record r = record {
  user_id = r.user_key;
  is_online = r.is_online;
  last_seen = r.last_seen;
  presence_status = r.presence_status;
  last_active = r.last_active;
}

abbrev pub status_online : String
status_online = "online"

abbrev pub status_away : String
status_away = "away"

abbrev pub status_offline : String
status_offline = "offline"

pub record CcuMetrics : Type 0 where
  pub current_ccu : ℕ
  pub last_24h : ℕ
  pub last_30d : ℕ
  pub monthly_avg : ℕ

abbrev pub zero_metrics : CcuMetrics
zero_metrics = record { current_ccu = 0; last_24h = 0; last_30d = 0; monthly_avg = 0 }

-- one more if the test holds
abbrev pub plus_if : Bool → ℕ → ℕ
plus_if b n = if b then suc n else n

-- the body of the loop of GetCCUMetrics
unfoldable pub count_item : ℤ → Presence → CcuMetrics → CcuMetrics
count_item now item metrics = record metrics {
  current_ccu =
      plus_if (leb_ℤ (now -ℤ pos 60000) item.last_seen && item.is_online) metrics.current_ccu;
  last_24h = plus_if (leb_ℤ (now -ℤ pos 86400000) item.last_seen) metrics.last_24h;
  last_30d = plus_if (leb_ℤ (now -ℤ pos 2592000000) item.last_seen) metrics.last_30d;
}

unfoldable pub count_presence : ℤ → List Presence → CcuMetrics → CcuMetrics
count_presence now [] metrics = metrics
count_presence now (item ∷ items) metrics = count_presence now items (count_item now item metrics)

-- the average is only set when it is not 0 / 30, which is 0 as well
unfoldable pub with_average : CcuMetrics → CcuMetrics
with_average metrics = record metrics { monthly_avg = metrics.last_30d / 30 }

module _ {S : Type 0} (T : Table PresenceRecord S) where
  unfoldable pub get_by_user_id : S → String → Result Presence
  get_by_user_id s user_id = elim (missing_as not_found (T.get s user_id)) [
    | err e ↦ err e
    | ok r ↦ ok (from_presence_record r)
  ]

  unfoldable pub upsert : S → Presence → Result Presence × S
  upsert s presence =
      let (written, t) = T.set s presence.user_id (to_presence_record presence) in
      elim written [ ok u ↦ (ok presence, t) | err e ↦ (err e, t) ]

  unfoldable pub list : S → Result (List Presence)
  list s = elim (T.search s query_all) [ err e ↦ err e | ok rs ↦ ok (map from_presence_record rs) ]

  unfoldable pub get_presence : S → ℤ → String → Result Presence
  get_presence s now user_id = elim (get_by_user_id s user_id) [
    | err not_found ↦ ok (record {
      user_id = user_id;
      is_online = false;
      last_seen = now;
      presence_status = status_offline;
      last_active = now;
    })
    | err e ↦ err e
    | ok presence ↦ ok presence
  ]

  -- every field of the presence that was read before is overwritten
  unfoldable pub update_presence : S → ℤ → String → String → Result Presence × S
  update_presence s now user_id status = upsert s (record {
    user_id = user_id;
    is_online = status == status_online || status == status_away;
    last_seen = now;
    presence_status = status;
    last_active = now;
  })

  abbrev pub set_offline : S → ℤ → String → Result Presence × S
  set_offline s now user_id = update_presence s now user_id status_offline

  unfoldable pub get_ccu_metrics : S → ℤ → Result CcuMetrics
  get_ccu_metrics s now = elim (list s) [
    | err e ↦ err e
    | ok items ↦ ok (with_average (count_presence now items zero_metrics))
  ]
