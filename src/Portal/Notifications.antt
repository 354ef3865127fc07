-- ===== src/Portal/Notifications.antt =====
-- `O2ULNotificationsService` (internal/application/o2ul_notifications_service.go), the types of
-- internal/domain/o2ul_notifications/notification.go, and `StrataO2ULNotificationsRepository`
-- (internal/infrastructure/db/o2ul_notifications_strata.go).
use o2ul_portal.Common.{
  ℕ, suc, ◌+◌, String, Bool, true, some, List, [], ◌∷◌, map, Map, ◌==◌, is_empty, concat,
  if◌then◌else◌, Result, ok, err, not_found,
}
use o2ul_portal.Common.Int.{ℤ, pos, ◌+ℤ◌, eq_ℤ, leb_ℤ}
use o2ul_portal.Store.{Table, Query, text, query_all, missing_as}
pub mod Delivery

pub record PushSubscription : Type 0 where
  pub id : String
  pub user_id : String
  pub endpoint : String
  pub expiration_time : ℤ
  pub p256dh : String
  pub auth : String
  pub created_at : ℤ
  pub updated_at : ℤ

pub record SubscriptionRecord : Type 0 where
  pub subscription_key : String
  pub user_id : String
  pub endpoint : String
  pub expiration_time : ℤ
  pub p256dh : String
  pub auth : String
  pub created_at : ℤ
  pub updated_at : ℤ

-- `data` is the printed form of a `map[string]any`, empty for nil.
pub record PendingNotification : Type 0 where
  pub id : String
  pub user_id : String
  pub title : String
  pub body : String
  pub icon : String
  pub tag : String
  pub url : String
  pub data_text : String
  pub status : String
  pub created_at : ℤ
  pub processed_at : ℤ
  pub attempts : ℤ
  pub last_error : String

pub record PendingRecord : Type 0 where
  pub notification_key : String
  pub user_id : String
  pub title : String
  pub body : String
  pub icon : String
  pub tag : String
  pub url : String
  pub data_json : String
  pub status : String
  pub created_at : ℤ
  pub processed_at : ℤ
  pub attempts : ℤ
  pub last_error : String

abbrev pub status_pending : String
status_pending = "pending"

abbrev pub to_subscription_record : PushSubscription → SubscriptionRecord
to_subscription_record s = record {
  subscription_key = s.id;
  user_id = s.user_id;
  endpoint = s.endpoint;
  expiration_time = s.expiration_time;
  p256dh = s.p256dh;
  auth = s.auth;
  created_at = s.created_at;
  updated_at = s.updated_at;
}

abbrev pub from_subscription_record : SubscriptionRecord → PushSubscription
from_subscription_record r = record {
  id = r.subscription_key;
  user_id = r.user_id;
  endpoint = r.endpoint;
  expiration_time = r.expiration_time;
  p256dh = r.p256dh;
  auth = r.auth;
  created_at = r.created_at;
  updated_at = r.updated_at;
}

-- the record that CreatePending writes: the column `data_json` stays empty
abbrev pub pending_record : PendingNotification → PendingRecord
pending_record n = record {
  notification_key = n.id;
  user_id = n.user_id;
  title = n.title;
  body = n.body;
  icon = n.icon;
  tag = n.tag;
  url = n.url;
  data_json = "";
  status = n.status;
  created_at = n.created_at;
  processed_at = n.processed_at;
  attempts = n.attempts;
  last_error = n.last_error;
}

abbrev pub to_pending_notification : PendingRecord → PendingNotification
to_pending_notification r = record {
  id = r.notification_key;
  user_id = r.user_id;
  title = r.title;
  body = r.body;
  icon = r.icon;
  tag = r.tag;
  url = r.url;
  data_text = "";
  status = r.status;
  created_at = r.created_at;
  processed_at = r.processed_at;
  attempts = r.attempts;
  last_error = r.last_error;
}

abbrev pub endpoint_query : String → String → Query
endpoint_query user_id endpoint = record query_all {
  condition = "endpoint = $1 AND user_id = $2";
  arguments = text endpoint ∷ text user_id ∷ [];
  limit = some (pos 1);
}

abbrev pub user_query : String → Query
user_query user_id = record query_all { condition = "user_id = $1"; arguments = text user_id ∷ [] }

abbrev pub pending_query : ℤ → Query
pending_query limit = record query_all {
  condition = "status = $1";
  arguments = text status_pending ∷ [];
  order_by = "created_at";
  descending = true;
  limit = some limit;
}

-- The clock in milliseconds, and `%d` of the clock in nanoseconds.
pub record Clock : Type 0 where
  pub unix_milli : ℤ
  pub nano_text : String

abbrev pub or_fresh : String → String → String
or_fresh id fresh = if is_empty id then fresh else id

module _ {S : Type 0} (T : Table SubscriptionRecord S) where
  unfoldable pub store_subscription :
      S → Clock → String → PushSubscription → Result PushSubscription × S
  store_subscription s clock user_id subscription =
      let stored = record subscription {
        id = or_fresh subscription.id (concat "sub-" clock.nano_text);
        user_id = user_id;
        updated_at = clock.unix_milli;
        created_at =
            if eq_ℤ subscription.created_at (pos 0)
            then clock.unix_milli
            else subscription.created_at;
      } in
      let (written, t) = T.set s stored.id (to_subscription_record stored) in
      elim written [ ok u ↦ (ok stored, t) | err e ↦ (err e, t) ]

  unfoldable pub remove_subscription : S → String → String → Result (Unit {0}) × S
  remove_subscription s user_id endpoint = elim (T.search s (endpoint_query user_id endpoint)) [
    | err e ↦ (err e, s)
    | ok [] ↦ (ok tt, s)
    | ok (r ∷ rs) ↦ T.delete s r.subscription_key
  ]

  unfoldable pub list_subscriptions : S → String → Result (List PushSubscription)
  list_subscriptions s user_id = elim (T.search s (user_query user_id)) [
    | err e ↦ err e
    | ok rs ↦ ok (map from_subscription_record rs)
  ]

module _ {S : Type 0} (T : Table PendingRecord S) where
  unfoldable pub create_notification :
      S → Clock → PendingNotification → Result PendingNotification × S
  create_notification s clock notification =
      let stored = record notification {
        id = or_fresh notification.id (concat "notif-" clock.nano_text);
        status = status_pending;
        created_at = clock.unix_milli;
      } in
      let (written, t) = T.set s stored.id (pending_record stored) in
      elim written [ ok u ↦ (ok stored, t) | err e ↦ (err e, t) ]

  -- the record that UpdatePendingStatus writes
  abbrev pub attempted : Clock → String → String → PendingRecord → PendingRecord
  attempted clock status last_error r = record r {
    status = status;
    last_error = last_error;
    attempts = r.attempts +ℤ pos 1;
    processed_at = clock.unix_milli;
  }

  unfoldable pub update_notification_status :
      S → Clock → String → String → String → Result PendingNotification × S
  update_notification_status s clock id status last_error =
      elim (missing_as not_found (T.get s id)) [
        | err e ↦ (err e, s)
        | ok r ↦
            let next = attempted clock status last_error r in
            let (written, t) = T.set s id next in
            elim written [ ok u ↦ (ok (to_pending_notification next), t) | err e ↦ (err e, t) ]
      ]

  unfoldable pub list_pending : S → ℤ → Result (List PendingNotification)
  list_pending s limit =
      elim (T.search s (pending_query (if leb_ℤ limit (pos 0) then pos 20 else limit))) [
        | err e ↦ err e
        | ok rs ↦ ok (map to_pending_notification rs)
      ]
