-- ===== src/Overlay/Focus.antt =====
-- What a layer does to the focus and the scrolling of the page.
use kafka_manager.Base.{ℕ, ◌≡◌, Bool, true, Option, none, some, List, ◌∷◌, if◌then◌else◌}
use kafka_manager.Overlay.{Document, Saved, mount, run_again}

-- Where the focus is once a layer is gone: on the element that had it before, if there was one and it
-- is still there, else where it was.
abbrev pub given_back : (ℕ → Bool) → Option ℕ → Option ℕ → Option ℕ
given_back attached none now = now
given_back attached (some n) now = if attached n then some n else now

module _ (attached : ℕ → Bool) where
  -- Whenever the effect of an open layer runs again, the focus jumps to the first element of the
  -- layer, wherever in the layer it was.
  pub run_again-refocuses :
      (first : ℕ) (rest : List ℕ) (saved : Saved) (d : Document)
      → attached first ≡ true
      → (run_again attached (first ∷ rest) saved d).0.active ≡ some first
  unfolding run_again mount
  run_again-refocuses first rest saved d h = rw h
