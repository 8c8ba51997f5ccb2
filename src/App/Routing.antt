-- ===== src/App/Routing.antt =====
-- The address that the application keeps: the cluster in it, and what a reload reads from it.
use kafka_manager.Base.{
  ◌≡◌, ◌⊎◌, refl, sym, ◌∙◌, ap, Bool, true, false, not, ◌&&◌, some, List, [], ◌∷◌, arith, Text,
  is_empty, text_eq, text_eq_refl, if◌then◌else◌, inl, inr, Option-cases,
}
use kafka_manager.Types.{Cluster}
use kafka_manager.Navigation.Routes.{AppRoute, build_route_path}
use kafka_manager.App.{AppState, cluster_of, cluster_id, navigate, redirect, or_empty, is_nil}

cluster_of-stable :
    (cs : List Cluster) (w : Text) → cluster_of cs (cluster_of cs w) ≡ cluster_of cs w
unfolding cluster_of
cluster_of-stable [] w = ground arith
cluster_of-stable (c ∷ cs) w = ground (arith, text_eq_refl c.id)

settled : (t : AppState) → or_empty t.route.cluster_id ≡ cluster_id t → redirect t ≡ t
unfolding redirect
settled t e = ground (arith, e, text_eq_refl (cluster_id t))

navigate-cases :
    (r : AppRoute) (s : AppState)
    → (navigate r s ≡ s) ⊎ (((navigate r s).clusters ≡ s.clusters) × ((navigate r s).route ≡ r))
unfolding navigate
navigate-cases r s = elim (Option-cases (build_route_path r)) [
  | inl failed ↦ rw (failed, navigate) (inl refl)
  | inr (path, built) ↦ rw (built, navigate) (inr (refl, refl))
]

if-cases {ℓ} :
    {A : Type ℓ} (b : Bool) (x y : A) → ((if b then x else y) ≡ x) ⊎ ((if b then x else y) ≡ y)
if-cases true x y = inl refl
if-cases false x y = inr refl

-- Where a state has the same cluster in its address as `id`.
abbrev Names : AppState → Text → AppState → Type 0
Names s id t = (t ≡ s) ⊎ ((t.clusters ≡ s.clusters) × (or_empty t.route.cluster_id ≡ id))

-- The redirection does nothing, or the address names the cluster that it was computed for.
redirect-cases : (s : AppState) → Names s (cluster_id s) (redirect s)
unfolding redirect
redirect-cases s =
    let r : AppRoute = record (s.route) { cluster_id = some (cluster_id s) } in
    elim (if-cases
      (not (is_nil s.clusters)
        && not (is_empty (cluster_id s))
        && not (text_eq (or_empty s.route.cluster_id) (cluster_id s)))
      (navigate r s) s) [
        | inl moved ↦ elim (navigate-cases r s) [
          | inl failed ↦ inl (moved ∙ failed)
          | inr (clusters, route) ↦ inr (
            ap (λ t. t.clusters) moved ∙ clusters,
            ap (λ t. or_empty t.route.cluster_id) moved ∙ ap (λ q. or_empty q.cluster_id) route,
          )
        ]
        | inr stayed ↦ inl stayed
      ]

-- One redirection settles the address: the effect, which runs again for the new route, changes
-- nothing then.
pub redirect_settles : (s : AppState) → redirect (redirect s) ≡ redirect s
unfolding cluster_id
redirect_settles s = elim (redirect-cases s) [
  | inl same ↦ ap redirect same
  | inr (clusters, id) ↦ settled (redirect s) (
      id
      ∙ sym (cluster_of-stable s.clusters (or_empty s.route.cluster_id))
      ∙ sym (λ i. cluster_of (clusters i) (id i)))
]
