-- ===== src/Workspace/Delete/Refine.antt =====
-- The deletion of a topic as an abstract machine of three phases, which the page implements.
use kafka_manager.Base.{ℕ, ◌+◌, ◌≡◌, ◌⊎◌, true, false, if◌then◌else◌}
use kafka_manager.Workspace.{WorkspaceState}
use kafka_manager.Workspace.Delete.{DeleteRun, IsTracked}

-- Nothing is asked; the dialog asks for a confirmation; the request is on its way.
pub data Phase : Type 0 where
  idle asking waiting : Phase

-- The steps of the abstract machine, with the number of requests that each sends.
pub data PhaseStep : Phase → ℕ → Phase → Type 0 where
  ask : PhaseStep idle 0 asking
  cancel : PhaseStep asking 0 idle
  send : PhaseStep asking 1 waiting
  accept : PhaseStep waiting 0 idle
  refuse : PhaseStep waiting 0 asking

-- What the abstract machine reaches from `idle`, with the number of requests sent on the way.
pub data Reached : Phase → ℕ → Type 0 where
  initially : Reached idle 0
  moved : {p q : Phase} {n k : ℕ} → Reached p n → PhaseStep p k q → Reached q (n + k)

-- The phase that a page shows.
abbrev pub phase_of : WorkspaceState → Phase
phase_of s = if s.deleting then waiting else if s.confirming_delete then asking else idle

-- A step of the page is a step of the abstract machine or none.
abbrev Moves : DeleteRun → DeleteRun → Type 0
Moves r s =
    ((phase_of s.page ≡ phase_of r.page) × (s.sent ≡ r.sent))
    ⊎ ((k : ℕ) × PhaseStep (phase_of r.page) k (phase_of s.page) × (s.sent ≡ r.sent + k))

-- The same from what is known of the phases.
abbrev MovesFrom : Phase → ℕ → Phase → DeleteRun → DeleteRun → Type 0
MovesFrom p k q r s =
    ((phase_of s.page ≡ phase_of r.page) × (s.sent ≡ r.sent))
    ⊎ ((phase_of r.page ≡ p) × (phase_of s.page ≡ q) × (s.sent ≡ r.sent + k))

-- The dialog is open while the request is on its way.
abbrev IsCoherent : DeleteRun → Type 0
IsCoherent r = IsTracked r × ((r.page.deleting ≡ false) ⊎ (r.page.confirming_delete ≡ true))
