-- ===== src/Dashboard/Alerts.antt =====
-- The three alerts at the top of the overview, and what the overview shows before there are any.
use kafka_manager.Base.{
  ◌≡◌, ◌↔◌, refl, ap, true, false, not, ◌||◌, List, [], ◌∷◌, arith, ltb, if◌then◌else◌, All,
}
use kafka_manager.Base.Int.{is_zero}
use kafka_manager.Types.{Cluster, Status}
use kafka_manager.Navigation.Connection.{cluster_status, DashboardLoadState}
use kafka_manager.Dashboard.{totals, count_status, lag_unavailable, lag_missing}
use kafka_manager.Dashboard.Counts.{sum_of, sum_lag, totals-sums}

pub data AlertTone : Type 0 where
  good warn bad : AlertTone

-- The tones of the alerts on clusters, on replicas and on lag.
pub offline_tone : List Cluster → AlertTone
offline_tone cs =
    if ltb 0 (count_status Status.offline cs)
    then bad
    else if ltb 0 (count_status Status.loading cs)
    then warn
    else good

pub isr_tone : List Cluster → AlertTone
isr_tone cs = if ltb 0 (totals cs).isr then bad else good

pub lag_tone : List Cluster → AlertTone
lag_tone cs = if ltb 0 (lag_unavailable cs) || not (is_zero (totals cs).lag) then warn else good

pub data Content : Type 0 where
  failed_notice loading_notice overview : Content

-- What the page shows for the state of the requests.
unfoldable pub content : DashboardLoadState → List Cluster → Content
content DashboardLoadState.ready cs = overview
content _ (c ∷ cs) = overview
content DashboardLoadState.error [] = failed_notice
content _ [] = loading_notice

abbrev pub IsHealthy : Cluster → Type 0
IsHealthy c =
    (cluster_status c ≡ Status.online) × (lag_missing c ≡ false) × (c.under_replicated ≡ 0)

none_counted :
    (cs : List Cluster)
    → ((count_status Status.offline cs ≡ 0)
        × (count_status Status.loading cs ≡ 0)
        × (lag_unavailable cs ≡ 0)
        × (sum_of (λ c. c.under_replicated) cs ≡ 0))
      ↔ All IsHealthy cs
unfolding count_status lag_unavailable
none_counted [] = (λ h. tt, λ h. (refl, refl, refl, refl))
none_counted (c ∷ cs) = ground (arith, none_counted cs)

-- All three alerts are good exactly if every cluster is online and tells its lag, none has a replica
-- out of sync, and the lags add up to zero.
alerts-good_iff :
    (cs : List Cluster)
    → ((offline_tone cs ≡ good) × (isr_tone cs ≡ good) × (lag_tone cs ≡ good))
      ↔ (All IsHealthy cs × (is_zero (sum_lag cs) ≡ true))
unfolding offline_tone isr_tone lag_tone
alerts-good_iff cs =
    let isr : (totals cs).isr ≡ sum_of (λ c. c.under_replicated) cs =
      ap (λ t. t.isr) (totals-sums cs) in
    let lag : (totals cs).lag ≡ sum_lag cs = ap (λ t. t.lag) (totals-sums cs) in
    rw (isr, lag) (ground (arith, none_counted cs))
