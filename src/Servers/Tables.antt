-- ===== src/Servers/Tables.antt =====
-- The laws of the tables keyed by client id.
use ran_online.Base.{ℕ, List, [], ◌∷◌, some, none, ◌≡◌, refl, inl, inr, Bool-cases, ◌==◌, arith}
use mathlib.Core.Option
use ran_online.Servers.{find, assign, erase, change, flush_sessions}
use ran_online.MinLzo.{Lzo}
use ran_online.Session.{Session, flush}
use ran_online.Base.{if◌then◌else◌}

module _ {ℓ} {A : Type ℓ} where
  pub find-erase : (id : ℕ) (table : List (ℕ × A)) → find id (erase id table) ≡ none
  unfolding find erase
  find-erase id [] = refl
  find-erase id ((k, w) ∷ table) = elim (Bool-cases (k == id)) [
    | inl h ↦ rw h (find-erase id table)
    | inr h ↦ rw (h, h) (find-erase id table)
  ]

  -- Every lookup behind an operation.
  pub find-assign_if :
      (j id : ℕ) (v : A) (table : List (ℕ × A))
      → find j (assign id v table) ≡ (if id == j then some v else find j table)
  unfolding find assign
  find-assign_if j id v [] = refl
  find-assign_if j id v ((k, w) ∷ table) = ground (arith, find-assign_if j id v table)

  pub find-erase_if :
      (j id : ℕ) (table : List (ℕ × A))
      → find j (erase id table) ≡ (if id == j then none else find j table)
  unfolding find erase
  find-erase_if j id [] = ground arith
  find-erase_if j id ((k, w) ∷ table) = ground (arith, find-erase_if j id table)

  pub find-change_if :
      (f : A → A) (j id : ℕ) (table : List (ℕ × A))
      → find j (change f id table) ≡ (if id == j then Option.map f (find j table) else find j table)
  unfolding find change
  find-change_if f j id [] = ground arith
  find-change_if f j id ((k, w) ∷ table) = ground (arith, find-change_if f j id table)

pub find-flush_sessions :
    (lzo : Lzo) (j : ℕ) (table : List (ℕ × Session))
    → find j (flush_sessions lzo table).0
      ≡ Option.map (λ (s : Session). (flush lzo s).0) (find j table)
unfolding find flush_sessions
find-flush_sessions lzo j [] = refl
find-flush_sessions lzo j ((k, s) ∷ table) = ground (arith, find-flush_sessions lzo j table)
