-- ===== src/NetServer.antt =====
-- net/net_server.{h,cpp}: the lifecycle that every server inherits. A method takes the state and
-- returns it with the calls that it makes, on the concrete server and on boost::asio, in their
-- order; what asio answers is an argument, and when a completion handler runs is the caller's
-- choice. `Start` and `Stop` are called from one thread, and each is one step; so is each handler,
-- since `Stop` joins the workers before it goes on to `OnStop`. Logging is left out.
pub mod Lifecycle
pub mod Loops
use ran_online.Base.{ℕ, zero, suc, List, [], ◌∷◌, ◌++◌, map, Bool, true, false, max}
use ran_online.Base.{if◌then◌else◌}
use ran_online.Base.Int.{ℤ, pos, negsuc}

-- The virtual methods of a concrete server with state `S`, which makes effects `E`.
pub record Hooks (S E : Type 0) : Type 0 where
  pub on_start : S → S × ℤ
  pub on_stop : S → S
  pub on_accept : S → S × List E
  pub on_update : S → S × List E
  pub on_regular_schedule : S → S × List E

-- The loops: async_accept, and the waits of the two timers.
pub data Loop : Type 0 where
  accept_loop update_loop schedule_loop : Loop

-- `begins l` starts the operation of a loop, `runs_hook l` is the call of its virtual method, and
-- `effect` what that does. The answer of OnStart is kept as a test for 0.
pub data Call (E : Type 0) : Type 0 where
  on_start_called : Bool → Call E
  on_stop_called open_listen close_acceptor cancel_timers stop_io restart_io : Call E
  begins runs_hook : Loop → Call E
  spawn_workers join_workers : ℕ → Call E
  effect : E → Call E

pub record NetServer (S : Type 0) : Type 0 where
  pub worker_count : ℤ
  pub running : Bool
  pub acceptor_open : Bool
  pub work : Bool
  pub workers : ℕ
  pub server : S

unfoldable pub is_zero : ℤ → Bool
is_zero (pos zero) = true
is_zero (pos (suc n)) = false
is_zero (negsuc n) = false

-- `m_workerCount > 0 ? m_workerCount : std::max(1u, hardware_concurrency())`
unfoldable pub pool_size : ℤ → ℕ → ℕ
pool_size (pos zero) concurrency = max 1 concurrency
pool_size (pos (suc n)) concurrency = suc n
pool_size (negsuc n) concurrency = max 1 concurrency

-- The constructor.
unfoldable pub new_net_server : {S : Type 0} → ℤ → S → NetServer S
new_net_server worker_count server = record {
  worker_count = worker_count;
  running = false;
  acceptor_open = false;
  work = false;
  workers = 0;
  server = server;
}

module _ {S E : Type 0} where
  module _ (hooks : Hooks S E) where
    -- The acceptor's setup failed.
    listen_failed : NetServer S → NetServer S × (List (Call E) × ℤ)
    listen_failed srv = (
      record srv { running = false; acceptor_open = false; server = hooks.on_stop srv.server },
      (on_start_called true ∷ open_listen ∷ close_acceptor ∷ on_stop_called ∷ [], negsuc 0),
    )

    serve : ℕ → NetServer S → NetServer S × (List (Call E) × ℤ)
    serve concurrency srv =
        let n = pool_size srv.worker_count concurrency in
        (
          record srv { running = true; acceptor_open = true; work = true; workers = n },
          (
            on_start_called true
                ∷ open_listen
                ∷ begins accept_loop
                ∷ begins update_loop
                ∷ begins schedule_loop
                ∷ spawn_workers n
                ∷ [],
            pos 0,
          ),
        )

    unfoldable pub start_up : Bool → ℕ → S × ℤ → NetServer S → NetServer S × (List (Call E) × ℤ)
    unfolding listen_failed serve
    start_up listen_ok concurrency (server, rc) srv =
        if is_zero rc
        then (if listen_ok
            then serve concurrency (record srv { server = server })
            else listen_failed (record srv { server = server }))
        else (record srv { running = false; server = server }, (on_start_called false ∷ [], rc))

    -- `listen_ok` says that open, bind and listen succeeded.
    unfoldable pub start : Bool → ℕ → NetServer S → NetServer S × (List (Call E) × ℤ)
    unfolding start_up
    start listen_ok concurrency srv =
        if srv.running
        then (srv, ([], pos 0))
        else start_up listen_ok concurrency (hooks.on_start srv.server) srv

    unfoldable pub stop : NetServer S → NetServer S × (List (Call E) × ℤ)
    stop srv =
        if srv.running
        then (
          record srv {
            running = false;
            acceptor_open = false;
            work = false;
            workers = 0;
            server = hooks.on_stop srv.server;
          },
          (
            close_acceptor
                ∷ cancel_timers
                ∷ stop_io
                ∷ join_workers srv.workers
                ∷ on_stop_called
                ∷ restart_io
                ∷ [],
            pos 0,
          ),
        )
        else (srv, ([], pos 0))

    hook_of : Loop → S → S × List E
    hook_of accept_loop = hooks.on_accept
    hook_of update_loop = hooks.on_update
    hook_of schedule_loop = hooks.on_regular_schedule

    -- The handler of a loop's operation, which ended with the error `ec` or well.
    unfoldable pub completed : Loop → Bool → NetServer S → NetServer S × List (Call E)
    unfolding hook_of
    completed l ec srv =
        let (server, effects) = hook_of l srv.server in
        let again : List (Call E) = if srv.running then begins l ∷ [] else [] in
        if ec
        then (srv, [])
        else (record srv { server = server }, runs_hook l ∷ (map effect effects ++ again))
