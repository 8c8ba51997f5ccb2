-- ===== src/Navigation/Connection.antt =====
-- web/src/navigation/connection-state.ts: the indicator of the connection in the top bar.
use kafka_manager.Base.{
  ◌≡◌, refl, ◌≢◌, ◌⊎◌, ◌↔◌, true, Option, none, some, ◌++◌, arith, if◌then◌else◌, Text, codes,
}
use kafka_manager.Base.Decimal.{decimal}
use kafka_manager.Types.{Cluster, Status}

pub data DashboardLoadState : Type 0 where
  idle loading ready error : DashboardLoadState

pub data Tone : Type 0 where
  loading online offline error : Tone

pub record ConnectionView : Type 0 where
  pub tone : Tone
  pub label : Text

-- `cluster.status || (cluster.online ? 'online' : 'offline')`
pub cluster_status : Cluster → Status
cluster_status c = elim c.status [
  | some s ↦ s
  | none ↦ if c.is_online then Status.online else Status.offline
]

abbrev view_of_status : Status → Cluster → ConnectionView
view_of_status Status.loading c = record { tone = Tone.loading; label = codes "正在连接 Kafka" }
view_of_status Status.offline c = record { tone = Tone.offline; label = codes "Kafka 连接中断" }
view_of_status Status.online c = record {
  tone = Tone.online;
  label = codes "在线 · " ++ (decimal c.latency_ms ++ codes "ms");
}

pub connection_view : Option Cluster → DashboardLoadState → ConnectionView
connection_view cluster DashboardLoadState.error = record {
  tone = Tone.error;
  label = codes "管理服务不可用";
}
connection_view none state = record { tone = Tone.loading; label = codes "正在获取状态" }
connection_view (some c) state = view_of_status (cluster_status c) c

-- The indicator says "online" exactly if the last request for the dashboard did not fail and the
-- cluster is known and online, by its status or, from a server that sends none, by its flag.
pub connection_view-online_iff :
    (cluster : Option Cluster) (state : DashboardLoadState)
    → ((connection_view cluster state).tone ≡ Tone.online) ↔ (
        (state ≢ DashboardLoadState.error)
        × ((c : Cluster) × (cluster ≡ some c)
            × ((c.status ≡ some Status.online) ⊎ ((c.status ≡ none) × (c.is_online ≡ true)))))
unfolding connection_view cluster_status
connection_view-online_iff none DashboardLoadState.error = (λ h. cc, λ h. absurd (h.0 refl))
connection_view-online_iff none _ = (λ h. cc, λ h. cc (h.1.1))
connection_view-online_iff (some c) DashboardLoadState.error = (λ h. cc, λ h. absurd (h.0 refl))
connection_view-online_iff (some c) _ = (
  λ h. (λ e. cc, (c, refl, ground arith)),
  λ (ok, (d, e, s)). let same : c ≡ d = cc in rw same (ground arith),
)
