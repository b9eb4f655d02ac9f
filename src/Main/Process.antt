-- ===== src/Main/Process.antt =====
-- The process of a server's main.cpp: the thread of `main`, the signal handler, which may run at any
-- moment, and the completion handlers on the worker threads. The handler stores the flag and wakes
-- the thread without the mutex, so `wait` has a moment between its test and its sleep.
use ran_online.Base.{ℕ, zero, suc, List, [], ◌++◌, Bool, true, false, ◌≡◌}
use ran_online.Base.{if◌then◌else◌}
use ran_online.NetServer.{Hooks, Loop, Call, NetServer, is_zero, start, stop, completed}

-- Where `main` is: before `Start`, at the predicate of `wait`, after it answered no, asleep, after it
-- answered yes, and returned.
pub data Thread : Type 0 where
  launching testing blocking sleeping stopping : Thread
  exited : ℕ → Thread

pub record Process (S E : Type 0) : Type 0 where
  pub thread : Thread
  pub stop_flag : Bool
  pub net : NetServer S
  pub calls : List (Call E)

unfoldable pub woken : Thread → Thread
woken sleeping = testing
woken launching = launching
woken testing = testing
woken blocking = blocking
woken stopping = stopping
woken (exited code) = exited code

module _ {S E : Type 0} where
  -- `onSignal`.
  unfoldable pub on_signal : Process S E → Process S E
  unfolding woken
  on_signal p = record p { stop_flag = true; thread = woken p.thread }

  module _ (hooks : Hooks S E) where
    launch : Bool → ℕ → Process S E → Process S E
    launch listen_ok concurrency p =
        let (net, (calls, rc)) = start hooks listen_ok concurrency p.net in
        record p {
          net = net;
          calls = p.calls ++ calls;
          thread = if is_zero rc then testing else exited 1;
        }

    finish : Process S E → Process S E
    finish p =
        let (net, (calls, rc)) = stop hooks p.net in
        record p { net = net; calls = p.calls ++ calls; thread = exited 0 }

    unfoldable pub go_on : Bool → ℕ → Thread → Process S E → Process S E
    unfolding launch finish
    go_on listen_ok concurrency launching p = launch listen_ok concurrency p
    go_on listen_ok concurrency testing p = record p {
      thread = if p.stop_flag then stopping else blocking;
    }
    go_on listen_ok concurrency blocking p = record p { thread = sleeping }
    go_on listen_ok concurrency sleeping p = p
    go_on listen_ok concurrency stopping p = finish p
    go_on listen_ok concurrency (exited code) p = p

    -- A step of `main`. The two arguments are the ones of `Start`.
    unfoldable pub main_goes : Bool → ℕ → Process S E → Process S E
    unfolding go_on
    main_goes listen_ok concurrency p = go_on listen_ok concurrency p.thread p

    -- A completion handler of the server.
    unfoldable pub on_completed : Loop → Bool → Process S E → Process S E
    on_completed l ec p =
        let (net, calls) = completed hooks l ec p.net in
        record p { net = net; calls = p.calls ++ calls }

    pub data Reach (srv : NetServer S) : Process S E → Type 0 where
      here : Reach srv (record { thread = launching; stop_flag = false; net = srv; calls = [] })
      by_signal : {p : Process S E} → Reach srv p → Reach srv (on_signal p)
      by_main :
          {p : Process S E}
          → Reach srv p
          → (listen_ok : Bool) (concurrency : ℕ) → Reach srv (main_goes listen_ok concurrency p)
      by_spurious_wakeup :
          {p : Process S E}
          → Reach srv p
          → p.thread ≡ sleeping
          → Reach srv (record p { thread = testing })
      by_completion :
          {p : Process S E} → Reach srv p → (l : Loop) (ec : Bool) → Reach srv (on_completed l ec p)

    unfoldable pub turns : ℕ → Process S E → Process S E
    turns zero p = p
    turns (suc n) p = turns n (main_goes true 1 p)
