-- ===== src/Portal/Notifications/Delivery.antt =====
-- A notification from its creation to its delivery.
use o2ul_portal.Common.{String, ◌≡◌, arith, ok}
use o2ul_portal.Common.Int.{pos, ◌+ℤ◌}
use o2ul_portal.Store.{Table, IsTable}
use o2ul_portal.Portal.Notifications.{
  PendingNotification, PendingRecord, pending_record, Clock, status_pending, create_notification,
  update_notification_status,
}

module _ {S : Type 0} (T : Table PendingRecord S) where
  -- A notification that was created is updated under the id that CreateNotification returned: the
  -- update gives it the new status and error and one attempt more, and keeps its receiver and text.
  -- The data that it was created with is lost.
  pub create-update :
      IsTable T
      → (s t u : S) (clock later : Clock) (n created updated : PendingNotification)
        (status last_error : String)
      → create_notification T s clock n ≡ (ok created, t)
      → update_notification_status T t later created.id status last_error ≡ (ok updated, u)
      → (created.status ≡ status_pending)
        × (created.data_text ≡ n.data_text)
        × (updated ≡ record created {
          data_text = "";
          status = status;
          last_error = last_error;
          attempts = created.attempts +ℤ pos 1;
          processed_at = later.unix_milli;
        })
  unfolding create_notification update_notification_status
  create-update law s t u clock later n created updated status last_error h k =
      let set : T.set s created.id (pending_record created) ≡ (ok tt, t) = ground arith in
      let row = law.set_get s t created.id (pending_record created) set in
      (ground arith, ground arith, ground arith)
