-- ===== src/App/Dashboard.antt =====
-- Answers about the dashboard that arrive late.
use kafka_manager.Base.{ℕ, ◌+◌, ◌≤◌, ◌<◌, ◌≡◌, refl, List, [], ◌∷◌, arith, All, some, ◌∙◌}
use kafka_manager.Types.{Cluster}
use kafka_manager.Navigation.Connection.{DashboardLoadState}
use kafka_manager.Navigation.Requests.{begin, is_current}
use kafka_manager.App.{
  AppState, DashboardAnswer, History, snapshot, load_clusters, clusters_answered,
}

-- The effect's timer, the button and a save start a request; answers come in any order.
pub data DashboardEvent : Type 0 where
  refresh : DashboardEvent
  answered : ℕ → DashboardAnswer → DashboardEvent

pub dashboard_step : AppState → DashboardEvent → AppState
dashboard_step s refresh = (load_clusters s).0
dashboard_step s (answered request answer) = clusters_answered request answer s

pub dashboard_run : AppState → List DashboardEvent → AppState
dashboard_run s [] = s
dashboard_run s (e ∷ es) = dashboard_run (dashboard_step s e) es

abbrev issued : AppState → ℕ
issued s = s.dashboard_requests.current

issued-step : (s : AppState) (e : DashboardEvent) → issued s ≤ issued (dashboard_step s e)
unfolding dashboard_step load_clusters clusters_answered begin
issued-step s refresh = omega arith
issued-step s (answered request answer) = ground arith

issued-run : (s : AppState) (es : List DashboardEvent) → issued s ≤ issued (dashboard_run s es)
unfolding dashboard_run
issued-run s [] = omega arith
issued-run s (e ∷ es) = omega (arith, issued-step s e, issued-run (dashboard_step s e) es)

stale :
    (request : ℕ) (answer : DashboardAnswer) (s : AppState)
    → request < issued s
    → clusters_answered request answer s ≡ s
unfolding clusters_answered is_current
stale request answer s h = ground arith

-- Once a later request was started, the answer to an earlier one changes nothing any more,
-- whatever else happened before, between and after.
pub late_answer_ignored :
    (s : AppState) (es fs : List DashboardEvent) (answer : DashboardAnswer)
    → let (first, request) = load_clusters s in
      let later = dashboard_run (load_clusters (dashboard_run first es)).0 fs in
      clusters_answered request answer later ≡ later
unfolding load_clusters begin
late_answer_ignored s es fs answer =
    let first : AppState = (load_clusters s).0 in
    let second : AppState = (load_clusters (dashboard_run first es)).0 in
    stale (issued s + 1) answer (dashboard_run second fs)
      (omega (arith, issued-run first es, issued-run second fs))

-- An event that starts no request.
abbrev pub IsAnswer : DashboardEvent → Type 0
IsAnswer refresh = ⊥
IsAnswer (answered request answer) = Unit

issued-answers :
    (s : AppState) (es : List DashboardEvent)
    → All IsAnswer es
    → issued (dashboard_run s es) ≡ issued s
unfolding dashboard_run dashboard_step clusters_answered
issued-answers s [] h = refl
issued-answers s (refresh ∷ es) h = absurd h.0
issued-answers s (answered request answer ∷ es) h =
    issued-answers (clusters_answered request answer s) es h.1 ∙ ground arith

-- If no other request is started after a request, a successful answer to it is shown, whatever
-- answers to other requests came before it.
pub latest_answer_shown :
    (s : AppState) (es : List DashboardEvent) (items : List Cluster) (points : History)
    → All IsAnswer es
    → let (started, request) = load_clusters s in
      let t = clusters_answered request (snapshot items (some points)) (dashboard_run started es) in
      (t.clusters ≡ items) × (t.history ≡ points) × (t.dashboard_state ≡ DashboardLoadState.ready)
unfolding load_clusters begin clusters_answered is_current
latest_answer_shown s es items points h = ground (arith, issued-answers (load_clusters s).0 es h)
