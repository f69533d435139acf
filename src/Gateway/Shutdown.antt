-- ===== src/Gateway/Shutdown.antt =====
-- The end of cmd/gateway/main.go, from the server on, with the loops of the background agents and
-- of the policy watch: `Start`, `Stop` and `Close`, and the select of each loop. Every event of
-- another goroutine is a step, so a run is a list of events in the order in which they come.
pub mod Kept
pub mod Ends
pub mod Blocked
pub mod Tests
use aizen_gate.Base.{
  ℕ, zero, suc, Bool, true, false, Option, none, some, List, [], ◌∷◌, if◌then◌else◌,
}
use aizen_gate.Gateway.Boot.{Running}

-- A loop that does not exist, one that runs, one that runs although its `shutdownCh` is closed, one
-- that is blocked in `Snapshot`, with true when its `shutdownCh` is closed, and one that has
-- returned.
pub data Loop : Type 0 where
  absent : Loop
  looping : Loop
  told : Loop
  stuck : Bool → Loop
  returned : Loop

-- `close` of the `shutdownCh`, where the loop exists; `none` is the panic of a second close.
unfoldable pub close : Loop → Option Loop
close absent = some absent
close looping = some told
close told = none
close (stuck false) = some (stuck true)
close (stuck true) = none
close returned = none

-- A select takes any of its ready cases, so a loop that is told to stop may still take a tick.
abbrev pub is_running : Loop → Bool
is_running absent = false
is_running looping = true
is_running told = true
is_running (stuck closed) = false
is_running returned = false

abbrev pub is_told : Loop → Bool
is_told told = true
is_told _ = false

-- `wg.Wait()` returns.
abbrev pub is_gone : Loop → Bool
is_gone absent = true
is_gone looping = false
is_gone told = false
is_gone (stuck closed) = false
is_gone returned = true

-- What becomes of a loop that asks for the lost lock.
abbrev pub blocked : Loop → Loop
blocked looping = stuck false
blocked told = stuck true
blocked l = l

-- The loops, the queries to a model that are in flight, and whether the lock of the metrics handler
-- is held for good: a `ServeHTTP` that panicked keeps its `mu.RLock`, and an `mu.Lock` waits for
-- it,
-- so every later `mu.RLock` waits as well.
pub record Agents : Type 0 where
  pub analyzer : Loop
  pub healer : Loop
  pub watcher : Loop
  pub queries : ℕ
  pub is_lock_lost : Bool

pub data AgentEvent : Type 0 where
  analyzer_ticks : Bool → AgentEvent
  healer_ticks : Bool → AgentEvent
  query_ends : AgentEvent
  lock_is_lost : AgentEvent
  analyzer_returns : AgentEvent
  healer_returns : AgentEvent
  watcher_returns : AgentEvent

abbrev asked : Bool → ℕ → ℕ
asked asks n = if asks then suc n else n

-- A tick takes a `Snapshot` first. Then it may start a query, which runs in a goroutine of its own
-- that no `wg` counts.
unfoldable pub agent_step : AgentEvent → Agents → Option Agents
agent_step (analyzer_ticks asks) a =
    if is_running a.analyzer
    then some (
        if a.is_lock_lost
        then record a { analyzer = blocked a.analyzer }
        else record a { queries = asked asks a.queries })
    else none
agent_step (healer_ticks asks) a =
    if is_running a.healer
    then some (
        if a.is_lock_lost
        then record a { healer = blocked a.healer }
        else record a { queries = asked asks a.queries })
    else none
agent_step query_ends a = elim a.queries [ zero ↦ none | suc n ↦ some (record a { queries = n }) ]
agent_step lock_is_lost a = some (record a { is_lock_lost = true })
agent_step analyzer_returns a =
    if is_told a.analyzer then some (record a { analyzer = returned }) else none
agent_step healer_returns a =
    if is_told a.healer then some (record a { healer = returned }) else none
agent_step watcher_returns a =
    if is_told a.watcher then some (record a { watcher = returned }) else none

-- Where `main` is: in its select, in the two calls of `Stop`, in `server.Shutdown`, in the deferred
-- `cpClient.Close`, or at the end with an exit code.
pub data MainPhase : Type 0 where
  serving : MainPhase
  stopping_analyzer : MainPhase
  stopping_healer : MainPhase
  draining : MainPhase
  closing : MainPhase
  exited : ℕ → MainPhase

-- What `main` goes on with: the server's error, where true is `http.ErrServerClosed` or none, a
-- signal, a `Stop` or `Close` that returns, and `server.Shutdown`, where true is no error.
pub data MainEvent : Type 0 where
  server_ends : Bool → MainEvent
  signal : MainEvent
  goes_on : MainEvent
  drained : Bool → MainEvent

abbrev pub Process : Type 0
Process = MainPhase × Agents

-- A panic ends a Go program with the code 2.
abbrev panics : Agents → Process
panics a = (exited 2, a)

unfoldable pub close_analyzer : Agents → Process
unfolding close
close_analyzer a = elim (close a.analyzer) [
  | none ↦ panics a
  | some l ↦ (stopping_analyzer, record a { analyzer = l })
]

unfoldable pub close_healer : Agents → Process
unfolding close
close_healer a = elim (close a.healer) [
  | none ↦ panics a
  | some l ↦ (stopping_healer, record a { healer = l })
]

unfoldable pub close_client : Agents → Process
unfolding close
close_client a = elim (close a.watcher) [
  | none ↦ panics a
  | some l ↦ (closing, record a { watcher = l })
]

-- `os.Exit` runs no deferred call.
unfoldable pub main_step : MainEvent → MainPhase → Agents → Option Process
unfolding close_analyzer close_healer close_client
main_step (server_ends closed) serving a = some (if closed then close_client a else (exited 1, a))
main_step signal serving a = some (close_analyzer a)
main_step goes_on stopping_analyzer a = if is_gone a.analyzer then some (close_healer a) else none
main_step goes_on stopping_healer a = if is_gone a.healer then some (draining, a) else none
main_step (drained ok) draining a = some (if ok then close_client a else (exited 1, a))
main_step goes_on closing a = if is_gone a.watcher then some (exited 0, a) else none
main_step _ _ a = none

pub data ProcessEvent : Type 0 where
  by_agent : AgentEvent → ProcessEvent
  by_main : MainEvent → ProcessEvent

unfoldable pub process_step : ProcessEvent → Process → Option Process
unfolding main_step agent_step
process_step (by_main e) (phase, a) = main_step e phase a
process_step (by_agent e) (exited code, a) = none
process_step (by_agent e) (phase, a) = elim (agent_step e a) [
  | none ↦ none
  | some a' ↦ some (phase, a')
]

unfoldable pub run_process : List ProcessEvent → Process → Option Process
unfolding process_step
run_process [] p = some p
run_process (e ∷ es) p = elim (process_step e p) [ none ↦ none | some q ↦ run_process es q ]

-- The server starts, and with it the agents.
abbrev pub launch : {R : Type 0} → Running R → Process
launch r =
    let agent = if r.agents then looping else absent in
    (
      serving,
      record {
        analyzer = agent;
        healer = agent;
        watcher = if r.client.watching then looping else absent;
        queries = 0;
        is_lock_lost = false;
      },
    )
