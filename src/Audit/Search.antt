-- ===== src/Audit/Search.antt =====
-- Which entries of the audit log are shown.
use kafka_manager.Base.{
  ◌≡◌, ◌⊎◌, ◌↔◌, refl, inl, inr, Bool, true, false, ◌&&◌, ◌||◌, List, ◌∷◌, arith, Text, codes,
  text_eq, text_eq_iff, Bool-cases,
}
use kafka_manager.Base.Search.{trim, includes_iff, Occurs}
use kafka_manager.Audit.{AuditEntry, AuditState, haystack, matches_result, matches_query, shown}

-- What a reader asks for: a result, or any of them, and a text that occurs in the entry.
abbrev pub IsAskedFor : (Text → Text) → AuditState → AuditEntry → Type 0
IsAskedFor to_lower_case s e =
    ((s.result ≡ codes "all") ⊎ (e.result ≡ s.result))
    × Occurs (to_lower_case (trim s.query)) (to_lower_case (haystack e))

or_iff : (a b c d : Text) → ((text_eq a b || text_eq c d) ≡ true) ↔ ((a ≡ b) ⊎ (c ≡ d))
or_iff a b c d = ground (arith, text_eq_iff a b, text_eq_iff c d)

and_iff {ℓ κ} :
    {P : Type ℓ} {Q : Type κ} (p q : Bool)
    → ((p ≡ true) ↔ P)
    → ((q ≡ true) ↔ Q)
    → ((p && q) ≡ true) ↔ (P × Q)
and_iff true q f g = (λ e. (f.0 refl, g.0 e), λ h. g.1 h.1)
and_iff false q f g = (λ e. cc, λ h. cc (f.1 h.0))

matches_iff :
    (to_lower_case : Text → Text) (s : AuditState) (e : AuditEntry)
    → ((matches_result s.result e && matches_query to_lower_case s.query e) ≡ true)
      ↔ IsAskedFor to_lower_case s e
unfolding matches_result matches_query
matches_iff to_lower_case s e =
    and_iff (text_eq s.result (codes "all") || text_eq e.result s.result) _
      (or_iff s.result (codes "all") e.result s.result)
      (includes_iff (to_lower_case (haystack e)) (to_lower_case (trim s.query)))

-- The entries shown are those of the log that the reader asks for, in their order: an entry at the
-- head of the log is shown first if it is asked for, and is left out otherwise.
pub shown-cons :
    (to_lower_case : Text → Text) (s : AuditState) (e : AuditEntry) (es : List AuditEntry)
    → let all = shown to_lower_case (record s { items = e ∷ es }) in
      let rest = shown to_lower_case (record s { items = es }) in
      (IsAskedFor to_lower_case s e → all ≡ e ∷ rest)
      × ((IsAskedFor to_lower_case s e → ⊥) → all ≡ rest)
unfolding shown
shown-cons to_lower_case s e es = (
  λ asked. rw ((matches_iff to_lower_case s e).1 asked),
  λ other. elim (Bool-cases (matches_result s.result e && matches_query to_lower_case s.query e)) [
    | inl asked ↦ absurd (other ((matches_iff to_lower_case s e).0 asked))
    | inr skipped ↦ rw skipped
  ],
)
