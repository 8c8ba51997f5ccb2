-- ===== src/Loader.antt =====
-- What the pages that load a list have in common: a request is started and shown as loading, and its
-- answer, the list or the message of an exception, ends the loading.
pub mod Pages
mod Tests
use kafka_manager.Base.{◌≡◌, refl, ◌∙◌, Bool, true, false, List, [], ◌∷◌, Text}

pub data LoadEvent (A : Type 0) : Type 0 where
  started : LoadEvent A
  answered : A → LoadEvent A

-- The operations of a page whose state is `S` and whose answers are `A`, and their laws.
pub record Loader (S : Type 0) (A : Type 0) : Type 0 where
  pub start_load : S → S
  pub finish_load : A → S → S
  pub is_loading : S → Bool
  pub start_law : (s : S) → is_loading (start_load s) ≡ true
  pub finish_law : (a : A) (s : S) → is_loading (finish_load a s) ≡ false

module _ {S : Type 0} {A : Type 0} (loader : Loader S A) where
  pub load_step : S → LoadEvent A → S
  load_step s started = loader.start_load s
  load_step s (answered a) = loader.finish_load a s

  pub load_run : S → List (LoadEvent A) → S
  load_run s [] = s
  load_run s (e ∷ es) = load_run (load_step s e) es

-- Whether the last event starts a request; `before` if there is none.
abbrev pub ends_started : {A : Type 0} → Bool → List (LoadEvent A) → Bool
ends_started before [] = before
ends_started before (started ∷ es) = ends_started true es
ends_started before (answered a ∷ es) = ends_started false es

module _ {S : Type 0} {A : Type 0} (loader : Loader S A) where
  pub is_loading-load_run :
      (s : S) (es : List (LoadEvent A))
      → loader.is_loading (load_run loader s es) ≡ ends_started (loader.is_loading s) es
  unfolding load_run load_step
  is_loading-load_run s [] = refl
  is_loading-load_run s (started ∷ es) =
      is_loading-load_run (loader.start_load s) es ∙ (λ i. ends_started (loader.start_law s i) es)
  is_loading-load_run s (answered a ∷ es) =
      is_loading-load_run (loader.finish_load a s) es
      ∙ (λ i. ends_started (loader.finish_law a s i) es)
