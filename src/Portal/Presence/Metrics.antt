-- ===== src/Portal/Presence/Metrics.antt =====
-- The presence metrics are consistent, and presence is read back as it was written.
use o2ul_portal.Common.{
  suc, subst, ◌+◌, ◌*◌, ◌≤◌, String, ◌||◌, ◌≡◌, ap, sym, List, [], ◌∷◌, arith, length, ok, ◌==◌,
}
use o2ul_portal.Common.Int.{ℤ, pos, -ℤ_parts}
use o2ul_portal.Store.{Table, IsTable}
use o2ul_portal.Portal.Presence.{
  Presence, PresenceRecord, to_presence_record, CcuMetrics, zero_metrics, count_item,
  count_presence, with_average, get_by_user_id, upsert, list, get_presence, update_presence,
  get_ccu_metrics, status_online, status_away,
}

-- Who is counted as online now was seen today, and who was seen today was seen this month.
abbrev IsOrdered : CcuMetrics → Type 0
IsOrdered m = (m.current_ccu ≤ m.last_24h) × (m.last_24h ≤ m.last_30d)

count_item-IsOrdered :
    (now : ℤ) (item : Presence) (m : CcuMetrics)
    → IsOrdered m
    → IsOrdered (count_item now item m) × ((count_item now item m).last_30d ≤ suc m.last_30d)
unfolding count_item
count_item-IsOrdered now item m h =
    let a = -ℤ_parts now (pos 60000) in
    let b = -ℤ_parts now (pos 86400000) in
    let c = -ℤ_parts now (pos 2592000000) in
    ((ground (arith, a, b, h.0), ground (arith, b, c, h.1)), ground arith)

count_presence-IsOrdered :
    (now : ℤ) (items : List Presence) (m : CcuMetrics)
    → IsOrdered m
    → IsOrdered (count_presence now items m)
      × ((count_presence now items m).last_30d ≤ m.last_30d + length items)
unfolding count_presence
count_presence-IsOrdered now [] m h = (h, omega arith)
count_presence-IsOrdered now (item ∷ items) m h =
    let (k, le) = count_item-IsOrdered now item m h in
    let (r, le2) = count_presence-IsOrdered now items (count_item now item m) k in
    (r, omega (arith, le, le2))

module _ {S : Type 0} (T : Table PresenceRecord S) where
  -- GetCCUMetrics counts no user twice and more users over longer periods: those online now are at
  -- most those of the last day, these at most those of the last 30 days, these at most all that
  -- have a presence, and 30 times the monthly average is at most the last 30 days' count.
  pub get_ccu_metrics_bounds :
      (s : S) (now : ℤ) (items : List Presence) (m : CcuMetrics)
      → list T s ≡ ok items
      → get_ccu_metrics T s now ≡ ok m
      → (m.current_ccu ≤ m.last_24h)
        × (m.last_24h ≤ m.last_30d)
        × (m.last_30d ≤ length items)
        × (m.monthly_avg * 30 ≤ m.last_30d)
  unfolding get_ccu_metrics with_average
  get_ccu_metrics_bounds s now items m h k =
      let ((a, b), c) =
        count_presence-IsOrdered now items zero_metrics (omega arith, omega arith) in
      let is : with_average (count_presence now items zero_metrics) ≡ m = ground arith in
      (
        subst (λ q. q.current_ccu ≤ q.last_24h) is a,
        subst (λ q. q.last_24h ≤ q.last_30d) is b,
        subst (λ q. q.last_30d ≤ length items) is (omega (arith, c)),
        subst (λ q. q.monthly_avg * 30 ≤ q.last_30d) is (omega arith),
      )

  -- After UpdatePresence succeeds, GetPresence gives the new status at any later time: online for
  -- the statuses online and away only, and after SetOffline offline.
  pub update_presence-get_presence :
      IsTable T
      → (s t : S) (now later : ℤ) (user_id status : String) (p : Presence)
      → update_presence T s now user_id status ≡ (ok p, t)
      → (get_presence T t later user_id ≡ ok p)
        × (p.presence_status ≡ status)
        × (p.is_online ≡ (status == status_online || status == status_away))
        × (p.last_seen ≡ now)
  unfolding update_presence upsert get_presence get_by_user_id
  update_presence-get_presence law s t now later user_id status p h =
      let made : Presence = record {
        user_id = user_id;
        is_online = status == status_online || status == status_away;
        last_seen = now;
        presence_status = status;
        last_active = now;
      } in
      let same : p ≡ made = ground arith in
      let set : T.set s user_id (to_presence_record made) ≡ (ok tt, t) = ground arith in
      let row = law.set_get s t user_id (to_presence_record made) set in
      (
        rw (row, get_presence, get_by_user_id) (ap ok (sym same)),
        ap (λ q. q.presence_status) same,
        ap (λ q. q.is_online) same,
        ap (λ q. q.last_seen) same,
      )
