-- ===== src/Overlay/Tests.antt =====
-- The theorems on layers and tabs at concrete elements.
use kafka_manager.Base.{
  ℕ, zero, suc, ◌+◌, ◌-◌, ◌≡◌, refl, true, false, Bool, some, [], ◌∷◌, codes, get_elem?, some_inj,
  arith, if◌then◌else◌,
}
use kafka_manager.Overlay.{Document}
use kafka_manager.Overlay.Trap.{TabOrder, AreDistinct, tabbed, press_tab, press_tab-moves}

abbrev everywhere : ℕ → Bool
everywhere n = true

-- The button 9 opens a dialog with the elements 1, 2 and 3.
abbrev page : Document
page = record { active = some 9; overflow = codes "auto" }

abbrev in_dialog : Document
in_dialog = record { active = some 3; overflow = codes "hidden" }

abbrev by_number : TabOrder
by_number shift a = if shift then a - 1 else a + 1

forwards :
    (i a b : ℕ)
    → get_elem? (1 ∷ 2 ∷ 3 ∷ []) i ≡ some a
    → get_elem? (1 ∷ 2 ∷ 3 ∷ []) (suc i) ≡ some b
    → by_number false a ≡ b
forwards zero a b e g = cc
forwards (suc zero) a b e g = cc
forwards (suc (suc i)) a b e g = cc

backwards :
    (i a b : ℕ)
    → get_elem? (1 ∷ 2 ∷ 3 ∷ []) i ≡ some a
    → get_elem? (1 ∷ 2 ∷ 3 ∷ []) (suc i) ≡ some b
    → by_number true b ≡ a
backwards zero a b e g = cc
backwards (suc zero) a b e g = cc
backwards (suc (suc i)) a b e g = cc

distinct : AreDistinct (1 ∷ 2 ∷ 3 ∷ [])
distinct i j a e g = ground (arith, place i a e, place j a g)
  where
    place : (k b : ℕ) → get_elem? (1 ∷ 2 ∷ 3 ∷ []) k ≡ some b → k + 1 ≡ b
    place zero b h = some_inj h
    place (suc zero) b h = some_inj h
    place (suc (suc zero)) b h = some_inj h
    place (suc (suc (suc k))) b h = cc

press_tab-moves_example :
    (press_tab everywhere by_number true (1 ∷ 2 ∷ 3 ∷ []) false in_dialog).active
    ≡ get_elem? (1 ∷ 2 ∷ 3 ∷ []) (tabbed false 2 2)
press_tab-moves_example =
    press_tab-moves everywhere by_number true 1 (2 ∷ 3 ∷ []) false 2 3 in_dialog
      (record { forwards = forwards; backwards = backwards }) distinct (λ a i. refl) refl refl
