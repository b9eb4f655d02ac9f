-- ===== src/Examples/Programs.antt =====
-- A login server that is started with a port, and its process from the start to a signal and its end.
use ran_online.Base.{
  ℕ, ◌≡◌, refl, List, [], ◌∷◌, ◌++◌, ◌⊎◌, Option, none, some, true, false, arith, codes,
}
use ran_online.Base.Int.{pos}
use ran_online.NetServer.{completed, update_loop, new_net_server, is_zero, start}
use ran_online.NetServer.Lifecycle.{Event, run, started, stopped}
use ran_online.Strings.{to_string}
use ran_online.Main.{settings, login_settings, parse_args}
use ran_online.Main.Arguments.{IsComplete, done, flag, word, settings-last}
use ran_online.Main.Process.{
  Process, launching, testing, exited, Reach, here, by_signal, by_main, by_completion, on_signal,
  main_goes, on_completed, turns,
}
use ran_online.Main.Ending.{Reach-exited}
use ran_online.Main.Runs.{unstarted, stage, stage_at, Reach-run}
use ran_online.AgentServer.{AgentServer}
use ran_online.AgentServer.Lifecycle.{on_start}
use ran_online.AgentServer.Hooks.{agent_hooks}
use ran_online.Session.{Effect}
use ran_online.Examples.Process.{idle_hooks, idle_server, idle-IsConsistent}

abbrev no_environment : List ℕ → Option (List ℕ)
no_environment name = none

given : login_settings no_environment [] ≡ record { port = 9200; db_conn = [] }
unfolding login_settings parse_args
given = refl

abbrev front : List (List ℕ)
front = codes "--port" ∷ codes "1" ∷ codes "-v" ∷ []

front-IsComplete : IsComplete front
front-IsComplete =
    flag (codes "--port") (codes "1") (codes "-v" ∷ []) refl (word (codes "-v") [] refl done)

settings-last_example :
    settings no_environment
      (codes "LOGIN_PORT")
      9200
      (codes "RanUser")
      (front ++ (codes "--port" ∷ to_string (pos 9300) ∷ codes "--db" ∷ codes "DSN=a" ∷ []))
    ≡ record { port = 9300; db_conn = codes "DSN=a" }
settings-last_example =
    settings-last no_environment (codes "LOGIN_PORT") (codes "RanUser") 9200 front 9300
      (codes "DSN=a") front-IsComplete (omega arith) (omega arith) (omega arith)

-- `main` starts the server, a timer fires, a signal comes, and `main` stops the server.
abbrev launched : Process AgentServer (ℕ × Effect)
launched =
    main_goes idle_hooks true 8
      (record { thread = launching; stop_flag = false; net = idle_server; calls = [] })

abbrev ended : Process AgentServer (ℕ × Effect)
ended = turns idle_hooks 2 (on_signal (on_completed idle_hooks update_loop false launched))

launched_well : launched.thread ≡ testing
unfolding main_goes new_net_server start agent_hooks is_zero on_start
launched_well = refl

ended_by_0 : ended.thread ≡ exited 0
unfolding turns on_signal on_completed main_goes new_net_server start completed agent_hooks is_zero
    on_start
ended_by_0 = refl

ended-Reach : Reach idle_hooks idle_server ended
unfolding turns
ended-Reach =
    by_main (by_main (by_signal (by_completion (by_main here true 8) update_loop false)) true 1)
      true 1

Reach-exited_example :
    (ended.net.running ≡ false)
    × (ended.net.acceptor_open ≡ false)
    × (ended.net.workers ≡ 0)
    × (started ended.calls ≡ stopped ended.calls)
    × ((◌≡◌ {A = ℕ} 0 1) ⊎ ((◌≡◌ {A = ℕ} 0 0) × (ended.stop_flag ≡ true)))
unfolding new_net_server
Reach-exited_example = Reach-exited idle_hooks refl idle-IsConsistent ended-Reach 0 ended_by_0

Reach-run_example :
    (es : List Event) × ((ended.net, ended.calls) ≡ run idle_hooks es idle_server)
    × (stage unstarted es ≡ some (stage_at idle_hooks ended.thread))
Reach-run_example = Reach-run idle_hooks ended-Reach
