-- ===== src/Gateway/Shutdown/Kept.antt =====
-- What holds of the agents' loops at each place of `main` in cmd/gateway/main.go, in every run.
use aizen_gate.Base.{
  ◌≡◌, inl, inr, Bool, true, false, not, ◌&&◌, none, some, List, [], ◌∷◌, arith, leb, Option-cases,
}
use aizen_gate.Gateway.Boot.{Running}
use aizen_gate.Gateway.Shutdown.{
  Loop, absent, looping, stuck, lock_is_lost, close, is_gone, Agents, AgentEvent, analyzer_ticks,
  healer_ticks, query_ends, analyzer_returns, healer_returns, watcher_returns, agent_step,
  MainPhase, serving, stopping_analyzer, stopping_healer, draining, closing, exited, MainEvent,
  server_ends, signal, goes_on, drained, Process, close_analyzer, close_healer, close_client,
  main_step, ProcessEvent, by_agent, by_main, process_step, run_process, launch,
}

abbrev pub is_fresh : Loop → Bool
is_fresh absent = true
is_fresh looping = true
is_fresh (stuck closed) = not closed
is_fresh _ = false

abbrev pub is_closed : Loop → Bool
is_closed looping = false
is_closed (stuck closed) = closed
is_closed _ = true

-- What holds of the loops at each place of `main`.
unfoldable pub is_kept : MainPhase → Agents → Bool
is_kept serving a = is_fresh a.analyzer && is_fresh a.healer && is_fresh a.watcher
is_kept stopping_analyzer a = is_closed a.analyzer && is_fresh a.healer && is_fresh a.watcher
is_kept stopping_healer a = is_gone a.analyzer && is_closed a.healer && is_fresh a.watcher
is_kept draining a = is_gone a.analyzer && is_gone a.healer && is_fresh a.watcher
is_kept closing a = is_closed a.watcher
is_kept (exited code) a = leb code 1

-- Where `main` is, what the agents do keeps it.
agent_step-is_kept :
    (e : AgentEvent) (ph : MainPhase) (a a' : Agents)
    → is_kept ph a ≡ true
    → agent_step e a ≡ some a'
    → is_kept ph a' ≡ true
unfolding agent_step is_kept
agent_step-is_kept (analyzer_ticks asks) ph a a' k s = ground arith
agent_step-is_kept (healer_ticks asks) ph a a' k s = ground arith
agent_step-is_kept lock_is_lost ph a a' k s = ground arith
agent_step-is_kept query_ends ph a a' k s = ground arith
agent_step-is_kept analyzer_returns ph a a' k s = ground arith
agent_step-is_kept healer_returns ph a a' k s = ground arith
agent_step-is_kept watcher_returns ph a a' k s = ground arith

main_step-is_kept :
    (e : MainEvent) (ph : MainPhase) (a : Agents) (q : Process)
    → is_kept ph a ≡ true
    → main_step e ph a ≡ some q
    → is_kept q.0 q.1 ≡ true
unfolding main_step is_kept close_analyzer close_healer close_client close
main_step-is_kept (server_ends c) ph a q k s = ground arith
main_step-is_kept signal ph a q k s = ground arith
main_step-is_kept goes_on ph a q k s = ground arith
main_step-is_kept (drained ok) ph a q k s = ground arith

process_step-is_kept :
    (e : ProcessEvent) (p q : Process)
    → is_kept p.0 p.1 ≡ true
    → process_step e p ≡ some q
    → is_kept q.0 q.1 ≡ true
unfolding process_step
process_step-is_kept (by_main e) (ph, a) q k s = main_step-is_kept e ph a q k s
process_step-is_kept (by_agent e) (ph, a) q k s = elim (Option-cases (agent_step e a)) [
  | inl fails ↦ absurd (ground arith)
  | inr (a', moves) ↦ let kept = agent_step-is_kept e ph a a' k moves in ground (arith, kept)
]

pub run_process-is_kept :
    (es : List ProcessEvent) (p q : Process)
    → is_kept p.0 p.1 ≡ true
    → run_process es p ≡ some q
    → is_kept q.0 q.1 ≡ true
unfolding run_process
run_process-is_kept [] p q k s = ground arith
run_process-is_kept (e ∷ es) p q k s = elim (Option-cases (process_step e p)) [
  | inl fails ↦ absurd (ground arith)
  | inr (p', moves) ↦
      run_process-is_kept es p' q (process_step-is_kept e p p' k moves) (ground arith)
]

pub launch-is_kept : {R : Type 0} (r : Running R) → is_kept (launch r).0 (launch r).1 ≡ true
unfolding is_kept
launch-is_kept r = ground arith

-- In every run of the gateway, when the connections are drained, both agents have ended: neither
-- the traffic analyser nor the self-healer takes a tick any more.
pub no_tick_while_draining :
    {R : Type 0} (r : Running R) (es : List ProcessEvent) (a : Agents) (asks : Bool)
    → run_process es (launch r) ≡ some (draining, a)
    → (agent_step (analyzer_ticks asks) a ≡ none) × (agent_step (healer_ticks asks) a ≡ none)
unfolding agent_step is_kept
no_tick_while_draining r es a asks e =
    let kept = run_process-is_kept es (launch r) (draining, a) (launch-is_kept r) e in
    (ground (arith, kept), ground (arith, kept))
