-- ===== src/NetServer/Loops.antt =====
-- The accept loop and the two timer loops of net/net_server.cpp: what their completion handlers
-- start again.
use ran_online.Base.{
  ℕ, ◌+◌, ◌≡◌, refl, List, [], ◌∷◌, ◌++◌, map, Bool, true, false, arith, if◌then◌else◌,
}
use ran_online.Base.Int.{ℤ}
use ran_online.NetServer.{
  Hooks, Loop, accept_loop, update_loop, schedule_loop, Call, begins, runs_hook, effect, NetServer,
  is_zero, start_up, start, completed, hook_of,
}
use ran_online.NetServer.Lifecycle.{Event, starts, completes, run}

abbrev same_loop : Loop → Loop → Bool
same_loop accept_loop accept_loop = true
same_loop update_loop update_loop = true
same_loop schedule_loop schedule_loop = true
same_loop _ _ = false

-- Operations of a loop that end, each with its error flag.
abbrev pub completions : List (Loop × Bool) → List Event
completions [] = []
completions ((l, ec) ∷ ended) = completes l ec ∷ completions ended

-- Those of one loop that end well, and those that end with an error.
abbrev pub successes : Loop → List (Loop × Bool) → ℕ
successes l [] = 0
successes l ((k, ec) ∷ ended) =
    (if same_loop l k then (if ec then 0 else 1) else 0) + successes l ended

abbrev pub errors : Loop → List (Loop × Bool) → ℕ
errors l [] = 0
errors l ((k, ec) ∷ ended) = (if same_loop l k then (if ec then 1 else 0) else 0) + errors l ended

-- Those of one loop that end.
abbrev pub ends : Loop → List (Loop × Bool) → ℕ
ends l [] = 0
ends l ((k, ec) ∷ ended) = (if same_loop l k then 1 else 0) + ends l ended

ends-errors :
    (l : Loop) (ended : List (Loop × Bool)) → ends l ended ≡ successes l ended + errors l ended
ends-errors l [] = omega arith
ends-errors l ((k, ec) ∷ ended) = ground (arith, ends-errors l ended)

module _ {E : Type 0} (l : Loop) where
  -- Operations of the loop that a run starts, and calls of its virtual method.
  abbrev pub begun : List (Call E) → ℕ
  begun [] = 0
  begun (begins k ∷ calls) = (if same_loop l k then 1 else 0) + begun calls
  begun (_ ∷ calls) = begun calls

  abbrev pub hooks_run : List (Call E) → ℕ
  hooks_run [] = 0
  hooks_run (runs_hook k ∷ calls) = (if same_loop l k then 1 else 0) + hooks_run calls
  hooks_run (_ ∷ calls) = hooks_run calls

  begun-append : (xs ys : List (Call E)) → begun (xs ++ ys) ≡ begun xs + begun ys
  begun-append [] ys = omega arith
  begun-append (begins k ∷ xs) ys = omega (arith, begun-append xs ys)
  begun-append (x ∷ xs) ys = begun-append xs ys

  hooks_run-append : (xs ys : List (Call E)) → hooks_run (xs ++ ys) ≡ hooks_run xs + hooks_run ys
  hooks_run-append [] ys = omega arith
  hooks_run-append (runs_hook k ∷ xs) ys = omega (arith, hooks_run-append xs ys)
  hooks_run-append (x ∷ xs) ys = hooks_run-append xs ys

  effects_lem : (es : List E) → (begun (map effect es) ≡ 0) × (hooks_run (map effect es) ≡ 0)
  effects_lem [] = (refl, refl)
  effects_lem (e ∷ es) = effects_lem es

-- A start begins each of the three.
one_each :
    (l : Loop)
    → (if same_loop l accept_loop then 1 else 0)
        + (if same_loop l update_loop then 1 else 0)
        + (if same_loop l schedule_loop then 1 else 0)
      ≡ 1
one_each accept_loop = omega arith
one_each update_loop = omega arith
one_each schedule_loop = omega arith

module _ {S E : Type 0} (hooks : Hooks S E) (l : Loop) where
  -- One handler, by its loop, its error flag, and whether the server runs.
  completed-begun :
      (k : Loop) (ec : Bool) (srv : NetServer S)
      → (begun l (completed hooks k ec srv).1
          ≡ (if same_loop l k then (if ec then 0 else (if srv.running then 1 else 0)) else 0))
        × (hooks_run l (completed hooks k ec srv).1
            ≡ (if same_loop l k then (if ec then 0 else 1) else 0))
        × ((completed hooks k ec srv).0.running ≡ srv.running)
  unfolding completed
  completed-begun k true srv = ground arith
  completed-begun k false srv =
      let did = (hook_of hooks k srv.server).1 in
      let again : List (Call E) = if srv.running then begins k ∷ [] else [] in
      let nothing = effects_lem l did in
      ground (
        arith,
        begun-append l (map effect did) again,
        hooks_run-append l (map effect did) again,
        nothing.0,
        nothing.1,
      )

  -- While a server runs, each operation of a loop that ends well runs the virtual method of that loop
  -- once and starts one operation of it again, and one that ends with an error does neither; in a
  -- server that does not run, an operation that still ends well runs the method once and starts
  -- nothing. No handler starts or stops the server.
  pub run_loops :
      (ended : List (Loop × Bool)) (srv : NetServer S)
      → (begun l (run hooks (completions ended) srv).1
          ≡ (if srv.running then successes l ended else 0))
        × (hooks_run l (run hooks (completions ended) srv).1 ≡ successes l ended)
        × ((run hooks (completions ended) srv).0.running ≡ srv.running)
  unfolding run
  run_loops [] srv = ground arith
  run_loops ((k, ec) ∷ ended) srv =
      let (next, first) = completed hooks k ec srv in
      let later = (run hooks (completions ended) next).1 in
      let one = completed-begun k ec srv in
      let rest = run_loops ended next in
      ground (
        arith,
        begun-append l first later,
        hooks_run-append l first later,
        one.0,
        one.1,
        one.2,
        rest.0,
        rest.1,
        rest.2,
      )

  start_up-begun :
      (concurrency : ℕ) (r : S × ℤ) (srv : NetServer S)
      → is_zero r.1 ≡ true
      → (begun l (start_up hooks true concurrency r srv).1.0 ≡ 1)
        × ((start_up hooks true concurrency r srv).0.running ≡ true)
  unfolding start_up
  start_up-begun concurrency (server, rc) srv zero_rc = ground (arith, one_each l)

  -- From a start that succeeds on, the operations of a loop that were started and the errors with which
  -- they ended are one more than those that ended: exactly one is in flight until the first error,
  -- and none from then on. So one error of async_accept ends the accept loop of a running server.
  pub start_loops :
      (concurrency : ℕ) (ended : List (Loop × Bool)) (srv : NetServer S)
      → srv.running ≡ false
      → is_zero (hooks.on_start srv.server).1 ≡ true
      → begun l (run hooks (starts true concurrency ∷ completions ended) srv).1 + errors l ended
        ≡ 1 + ends l ended
  unfolding run start
  start_loops concurrency ended srv off started =
      let up = start_up hooks true concurrency (hooks.on_start srv.server) srv in
      let first = up.1.0 in
      let later = (run hooks (completions ended) up.0).1 in
      let one = start_up-begun concurrency (hooks.on_start srv.server) srv started in
      let rest = run_loops ended up.0 in
      ground (arith, begun-append l first later, one.0, one.1, rest.0, ends-errors l ended)
