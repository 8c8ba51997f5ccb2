-- ===== src/Overlay/Arrows.antt =====
-- The arrow keys of tabs.
use native.Mathlib.Decide.{dec_lt}
use native.Mathlib.Nat.{mod-eq_of_lt, mod_self, add-mod_right}
use kafka_manager.Base.{
  ℕ, suc, zero, ◌+◌, ◌-◌, ◌%◌, ◌<◌, ◌≡◌, ap, ◌∙◌, Bool, true, false, arith, if◌then◌else◌, ltb,
}
use kafka_manager.Overlay.{next_tab}

-- The tab to the right, and the first one after the last.
next_tab-right : (n i : ℕ) → i < n → next_tab true n i ≡ (if ltb (i + 1) n then i + 1 else 0)
unfolding next_tab
next_tab-right n i h = elim (dec_lt (i + 1) n) [
  | yes inside ↦ add-mod_right (i + 1) n ∙ mod-eq_of_lt inside ∙ ground arith
  | no last ↦
      let here : i + 1 ≡ n = omega arith in
      add-mod_right (i + 1) n ∙ ap (λ k. k % n) here ∙ mod_self n ∙ ground arith
]

-- The tab to the left, and the last one before the first.
next_tab-left : (n i : ℕ) → i < n → next_tab false n i ≡ (if ltb 0 i then i - 1 else n - 1)
unfolding next_tab
next_tab-left n zero h =
    (let shift : 0 + n - 1 ≡ n - 1 = omega arith in ap (λ k. k % n) shift)
    ∙ mod-eq_of_lt {n = n - 1} {m = n} (omega arith)
next_tab-left n (suc j) h =
    (let shift : suc j + n - 1 ≡ j + n = omega arith in ap (λ k. k % n) shift)
    ∙ add-mod_right j n
    ∙ mod-eq_of_lt (omega arith)
    ∙ ground arith

next_tab-lt : (r : Bool) (n i : ℕ) → i < n → next_tab r n i < n
next_tab-lt true n i h = rw (next_tab-right n i h) (ground arith)
next_tab-lt false n i h = rw (next_tab-left n i h) (ground arith)

-- The two arrow keys undo each other, on every tab, the first and the last included, and neither
-- leaves the tabs.
pub next_tab-inverse :
    (n i : ℕ)
    → i < n
    → (next_tab false n (next_tab true n i) ≡ i)
      × (next_tab true n (next_tab false n i) ≡ i)
      × (next_tab true n i < n)
      × (next_tab false n i < n)
next_tab-inverse n i h = (
  rw (next_tab-left n (next_tab true n i) (next_tab-lt true n i h))
      (rw (next_tab-right n i h) (ground arith)),
  rw (next_tab-right n (next_tab false n i) (next_tab-lt false n i h))
      (rw (next_tab-left n i h) (ground arith)),
  next_tab-lt true n i h,
  next_tab-lt false n i h,
)
