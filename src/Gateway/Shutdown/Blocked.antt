-- ===== src/Gateway/Shutdown/Blocked.antt =====
-- A `Stop` of cmd/gateway/main.go that never returns, behind the lost lock of the metrics handler.
use aizen_gate.Base.{
  ◌≡◌, refl, inl, inr, true, false, some, List, [], ◌∷◌, arith, Option-cases, if◌then◌else◌,
}
use aizen_gate.Gateway.Boot.{Running}
use aizen_gate.Gateway.Shutdown.{
  absent, looping, stuck, close, Agents, AgentEvent, analyzer_ticks, healer_ticks, query_ends,
  lock_is_lost, analyzer_returns, healer_returns, watcher_returns, agent_step, stopping_analyzer,
  server_ends, signal, goes_on, drained, Process, close_analyzer, main_step, ProcessEvent, by_agent,
  by_main, process_step, run_process, launch,
}

-- The lock is lost, the analyser takes a tick, and a signal comes.
abbrev pub blocking : List ProcessEvent
blocking = by_agent lock_is_lost ∷ by_agent (analyzer_ticks false) ∷ by_main signal ∷ []

abbrev pub blocked_process : {R : Type 0} → Running R → Process
blocked_process r = (
  stopping_analyzer,
  record {
    analyzer = stuck true;
    healer = looping;
    watcher = if r.client.watching then looping else absent;
    queries = 0;
    is_lock_lost = true;
  },
)

agent_step-stuck :
    (e : AgentEvent) (a a' : Agents)
    → a.analyzer ≡ stuck true
    → agent_step e a ≡ some a'
    → a'.analyzer ≡ stuck true
unfolding agent_step
agent_step-stuck (analyzer_ticks asks) a a' k s = ground arith
agent_step-stuck (healer_ticks asks) a a' k s = ground arith
agent_step-stuck query_ends a a' k s = ground arith
agent_step-stuck lock_is_lost a a' k s = ground arith
agent_step-stuck analyzer_returns a a' k s = ground arith
agent_step-stuck healer_returns a a' k s = ground arith
agent_step-stuck watcher_returns a a' k s = ground arith

process_step-stuck :
    (e : ProcessEvent) (a : Agents) (q : Process)
    → a.analyzer ≡ stuck true
    → process_step e (stopping_analyzer, a) ≡ some q
    → (q.0 ≡ stopping_analyzer) × (q.1.analyzer ≡ stuck true)
unfolding process_step main_step
process_step-stuck (by_main (server_ends c)) a q k s = absurd (ground arith)
process_step-stuck (by_main signal) a q k s = absurd (ground arith)
process_step-stuck (by_main goes_on) a q k s = absurd (ground arith)
process_step-stuck (by_main (drained ok)) a q k s = absurd (ground arith)
process_step-stuck (by_agent e) a q k s = elim (Option-cases (agent_step e a)) [
  | inl fails ↦ absurd (ground arith)
  | inr (a', moves) ↦ let kept = agent_step-stuck e a a' k moves in ground (arith, kept)
]

run_process-stuck :
    (es : List ProcessEvent) (a : Agents) (q : Process)
    → a.analyzer ≡ stuck true
    → run_process es (stopping_analyzer, a) ≡ some q
    → q.0 ≡ stopping_analyzer
unfolding run_process
run_process-stuck [] a q k s = ground arith
run_process-stuck (e ∷ es) a q k s = elim (Option-cases (process_step e (stopping_analyzer, a))) [
  | inl fails ↦ absurd (ground arith)
  | inr ((ph, a'), moves) ↦
      let (same, kept) = process_step-stuck e a (ph, a') k moves in
      run_process-stuck es a' q kept (ground (arith, same))
]

-- Where the agents run, the lock of the metrics handler may be lost before the analyser takes a
-- tick and a signal comes. From there, whatever run follows, `main` is still in the `Stop` of the
-- analyser.
pub stop_can_block :
    {R : Type 0} (r : Running R) (es : List ProcessEvent) (q : Process)
    → r.agents ≡ true
    → run_process es (blocked_process r) ≡ some q
    → (run_process blocking (launch r) ≡ some (blocked_process r)) × (q.0 ≡ stopping_analyzer)
unfolding run_process process_step main_step agent_step close_analyzer close
stop_can_block r es q agents e = (rw agents refl, run_process-stuck es _ q refl e)
