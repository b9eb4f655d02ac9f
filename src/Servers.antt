-- ===== src/Servers.antt =====
-- What the servers of servers/ share: the tables keyed by client id (`unordered_map`, as an
-- association list), and the calls on a session of the table.
use ran_online.Base.{ℕ, List, [], ◌∷◌, ◌++◌, Option, some, none, map, if◌then◌else◌, ◌==◌}
use ran_online.MinLzo.{Lzo}
use ran_online.Session.{Session, Effect, flush}
pub mod Tables

module _ {ℓ} {A : Type ℓ} where
  -- `find`
  unfoldable pub find : ℕ → List (ℕ × A) → Option A
  find id [] = none
  find id ((k, v) ∷ table) = if k == id then some v else find id table

  -- `table[id] = v`
  unfoldable pub assign : ℕ → A → List (ℕ × A) → List (ℕ × A)
  assign id v [] = (id, v) ∷ []
  assign id v ((k, w) ∷ table) = if k == id then (id, v) ∷ table else (k, w) ∷ assign id v table

  -- A change of the object that the table holds for `id`.
  unfoldable pub change : (A → A) → ℕ → List (ℕ × A) → List (ℕ × A)
  change f id [] = []
  change f id ((k, w) ∷ table) = if k == id then (k, f w) ∷ table else (k, w) ∷ change f id table

  unfoldable pub erase : ℕ → List (ℕ × A) → List (ℕ × A)
  erase id [] = []
  erase id ((k, w) ∷ table) = let rest = erase id table in if k == id then rest else (k, w) ∷ rest

-- The effects of a call on the session of a client.
abbrev pub of_client : ℕ → List Effect → List (ℕ × Effect)
of_client id = map (λ (e : Effect). (id, e))

-- The loop of OnUpdate that flushes the sessions.
unfoldable pub flush_sessions : Lzo → List (ℕ × Session) → List (ℕ × Session) × List (ℕ × Effect)
flush_sessions lzo [] = ([], [])
flush_sessions lzo ((id, s) ∷ sessions) =
    let (s1, effects) = flush lzo s in
    let (rest, effects2) = flush_sessions lzo sessions in
    ((id, s1) ∷ rest, of_client id effects ++ effects2)
