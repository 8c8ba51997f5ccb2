-- ===== src/Settings/Editing.antt =====
-- What an edit of one cluster does to the configuration.
use kafka_manager.Base.{
  ℕ, zero, suc, ◌≡◌, ◌≢◌, refl, ap, ◌∙◌, none, some, List, [], ◌∷◌, arith, get_elem?, length,
}
use mathlib.Core.Option
use kafka_manager.Settings.{KafkaClusterConfig, AppConfig, SettingsState, update_at, update}

update_at-length :
    (i : ℕ) (patch : KafkaClusterConfig → KafkaClusterConfig) (cs : List KafkaClusterConfig)
    → length (update_at i patch cs) ≡ length cs
unfolding update_at
update_at-length i patch [] = refl
update_at-length zero patch (c ∷ cs) = refl
update_at-length (suc i) patch (c ∷ cs) = omega (arith, update_at-length i patch cs)

update_at-same :
    (i : ℕ) (patch : KafkaClusterConfig → KafkaClusterConfig) (cs : List KafkaClusterConfig)
    → get_elem? (update_at i patch cs) i ≡ Option.map patch (get_elem? cs i)
unfolding update_at
update_at-same i patch [] = refl
update_at-same zero patch (c ∷ cs) = refl
update_at-same (suc i) patch (c ∷ cs) = update_at-same i patch cs

update_at-others :
    (i j : ℕ) (patch : KafkaClusterConfig → KafkaClusterConfig) (cs : List KafkaClusterConfig)
    → j ≢ i
    → get_elem? (update_at i patch cs) j ≡ get_elem? cs j
unfolding update_at
update_at-others i j patch [] h = refl
update_at-others zero zero patch (c ∷ cs) h = absurd (h refl)
update_at-others zero (suc j) patch (c ∷ cs) h = refl
update_at-others (suc i) zero patch (c ∷ cs) h = refl
update_at-others (suc i) (suc j) patch (c ∷ cs) h =
    update_at-others i j patch cs (λ e. h (ap suc e))

abbrev pub clusters_of : SettingsState → List KafkaClusterConfig
clusters_of s = elim s.cfg [ none ↦ [] | some cfg ↦ cfg.clusters ]

edited :
    (i : ℕ) (patch : KafkaClusterConfig → KafkaClusterConfig) (s : SettingsState) (cfg : AppConfig)
    → s.cfg ≡ some cfg
    → clusters_of (update i patch s) ≡ update_at i patch cfg.clusters
unfolding update
edited i patch s cfg e = rw (e, update)

-- Once the configuration is loaded, an edit of the cluster at `i` changes that cluster only: every
-- other one, and their number, stays as it was.
pub update-local :
    (i j : ℕ) (patch : KafkaClusterConfig → KafkaClusterConfig) (s : SettingsState)
    (cfg : AppConfig)
    → s.cfg ≡ some cfg
    → let t = clusters_of (update i patch s) in
      (length t ≡ length cfg.clusters)
      × (get_elem? t i ≡ Option.map patch (get_elem? cfg.clusters i))
      × (j ≢ i → get_elem? t j ≡ get_elem? cfg.clusters j)
unfolding update
update-local i j patch s cfg e =
    let it : clusters_of (update i patch s) ≡ update_at i patch cfg.clusters =
      edited i patch s cfg e in
    (
      ap length it ∙ update_at-length i patch cfg.clusters,
      ap (λ cs. get_elem? cs i) it ∙ update_at-same i patch cfg.clusters,
      λ h. ap (λ cs. get_elem? cs j) it ∙ update_at-others i j patch cfg.clusters h,
    )
