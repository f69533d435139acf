-- ===== src/Gateway/Shutdown/Ends.antt =====
-- How cmd/gateway/main.go ends, from every place of `main`.
use aizen_gate.Base.{
  ℕ, ◌≤◌, ◌≡◌, ◌⊎◌, inl, inr, refl, true, false, Bool, ◌&&◌, ◌||◌, some, List, [], ◌∷◌, arith,
  Option-cases, Bool-cases,
}
use aizen_gate.Gateway.Boot.{Running}
use aizen_gate.Gateway.Shutdown.{
  Loop, stuck, returned, close, is_gone, Agents, AgentEvent, analyzer_ticks, healer_ticks,
  query_ends, lock_is_lost, MainEvent, server_ends, analyzer_returns, healer_returns,
  watcher_returns, agent_step, MainPhase, serving, stopping_analyzer, stopping_healer, draining,
  closing, exited, signal, goes_on, drained, Process, close_analyzer, close_healer, close_client,
  main_step, ProcessEvent, by_agent, by_main, process_step, run_process, launch,
}
use aizen_gate.Gateway.Shutdown.Kept.{is_kept, is_closed, run_process-is_kept, launch-is_kept}

abbrev is_unstuck : Loop → Bool
is_unstuck (stuck closed) = false
is_unstuck _ = true

-- What holds at each place of `main` with no loop blocked.
unfoldable is_live : MainPhase → Agents → Bool
is_live ph a = is_kept ph a && is_unstuck a.analyzer && is_unstuck a.healer && is_unstuck a.watcher

-- A loop is blocked only on the lock of the metrics handler, and the watch not at all.
unfoldable is_blocked_by_lock : Agents → Bool
is_blocked_by_lock a =
    is_unstuck a.watcher && (a.is_lock_lost || (is_unstuck a.analyzer && is_unstuck a.healer))

agent_step-is_blocked_by_lock :
    (e : AgentEvent) (a a' : Agents)
    → is_blocked_by_lock a ≡ true
    → agent_step e a ≡ some a'
    → is_blocked_by_lock a' ≡ true
unfolding agent_step is_blocked_by_lock
agent_step-is_blocked_by_lock (analyzer_ticks asks) a a' k s = ground arith
agent_step-is_blocked_by_lock (healer_ticks asks) a a' k s = ground arith
agent_step-is_blocked_by_lock query_ends a a' k s = ground arith
agent_step-is_blocked_by_lock lock_is_lost a a' k s = ground arith
agent_step-is_blocked_by_lock analyzer_returns a a' k s = ground arith
agent_step-is_blocked_by_lock healer_returns a a' k s = ground arith
agent_step-is_blocked_by_lock watcher_returns a a' k s = ground arith

main_step-is_blocked_by_lock :
    (e : MainEvent) (ph : MainPhase) (a : Agents) (q : Process)
    → is_blocked_by_lock a ≡ true
    → main_step e ph a ≡ some q
    → is_blocked_by_lock q.1 ≡ true
unfolding main_step is_blocked_by_lock close_analyzer close_healer close_client close
main_step-is_blocked_by_lock (server_ends c) ph a q k s = ground arith
main_step-is_blocked_by_lock signal ph a q k s = ground arith
main_step-is_blocked_by_lock goes_on ph a q k s = ground arith
main_step-is_blocked_by_lock (drained ok) ph a q k s = ground arith

process_step-is_blocked_by_lock :
    (e : ProcessEvent) (p q : Process)
    → is_blocked_by_lock p.1 ≡ true
    → process_step e p ≡ some q
    → is_blocked_by_lock q.1 ≡ true
unfolding process_step
process_step-is_blocked_by_lock (by_main e) (ph, a) q k s =
    main_step-is_blocked_by_lock e ph a q k s
process_step-is_blocked_by_lock (by_agent e) (ph, a) q k s = elim (Option-cases (agent_step e a)) [
  | inl fails ↦ absurd (ground arith)
  | inr (a', moves) ↦
      let kept = agent_step-is_blocked_by_lock e a a' k moves in ground (arith, kept)
]

run_process-is_blocked_by_lock :
    (es : List ProcessEvent) (p q : Process)
    → is_blocked_by_lock p.1 ≡ true
    → run_process es p ≡ some q
    → is_blocked_by_lock q.1 ≡ true
unfolding run_process
run_process-is_blocked_by_lock [] p q k s = ground arith
run_process-is_blocked_by_lock (e ∷ es) p q k s = elim (Option-cases (process_step e p)) [
  | inl fails ↦ absurd (ground arith)
  | inr (p', moves) ↦
      run_process-is_blocked_by_lock es p' q (process_step-is_blocked_by_lock e p p' k moves)
        (ground arith)
]

launch-is_blocked_by_lock : {R : Type 0} (r : Running R) → is_blocked_by_lock (launch r).1 ≡ true
unfolding is_blocked_by_lock
launch-is_blocked_by_lock r = ground arith

-- From here on, `main` can reach its end with the code 0.
abbrev pub CanEnd : Process → Type 0
CanEnd p = (es : List ProcessEvent) × (a : Agents) × (run_process es p ≡ some (exited 0, a))

process_step-CanEnd :
    (e : ProcessEvent) (p q : Process) → process_step e p ≡ some q → CanEnd q → CanEnd p
unfolding run_process
process_step-CanEnd e p q s (es, a, r) = (e ∷ es, a, ground (arith, s, r))

closing-CanEnd :
    (a : Agents) → is_closed a.watcher ≡ true → is_unstuck a.watcher ≡ true → CanEnd (closing, a)
unfolding run_process process_step main_step agent_step
closing-CanEnd a k unstuck = elim (Bool-cases (is_gone a.watcher)) [
  | inl gone ↦ (by_main goes_on ∷ [], a, ground arith)
  | inr stays ↦ (
    by_agent watcher_returns ∷ by_main goes_on ∷ [],
    record a { watcher = returned },
    ground arith,
  )
]

draining-CanEnd : (a : Agents) → is_live draining a ≡ true → CanEnd (draining, a)
unfolding process_step main_step close_client close is_kept is_live
draining-CanEnd a k = elim (Option-cases (close a.watcher)) [
  | inl panics ↦ absurd (ground arith)
  | inr (l, closes) ↦
      process_step-CanEnd (by_main (drained true)) (draining, a) (closing, record a { watcher = l })
        (ground arith) (closing-CanEnd (record a { watcher = l }) (ground arith) (ground arith))
]

healer_gone-CanEnd :
    (a : Agents)
    → is_live stopping_healer a ≡ true
    → is_gone a.healer ≡ true
    → CanEnd (stopping_healer, a)
unfolding process_step main_step is_kept is_live
healer_gone-CanEnd a k gone =
    process_step-CanEnd (by_main goes_on) (stopping_healer, a) (draining, a) (ground arith)
      (draining-CanEnd a (ground arith))

stopping_healer-CanEnd :
    (a : Agents) → is_live stopping_healer a ≡ true → CanEnd (stopping_healer, a)
unfolding process_step agent_step is_kept is_live
stopping_healer-CanEnd a k = elim (Bool-cases (is_gone a.healer)) [
  | inl gone ↦ healer_gone-CanEnd a k gone
  | inr stays ↦
      let a' : Agents = record a { healer = returned } in
      process_step-CanEnd (by_agent healer_returns) (stopping_healer, a) (stopping_healer, a')
        (ground arith) (healer_gone-CanEnd a' (ground arith) refl)
]

analyzer_gone-CanEnd :
    (a : Agents)
    → is_live stopping_analyzer a ≡ true
    → is_gone a.analyzer ≡ true
    → CanEnd (stopping_analyzer, a)
unfolding process_step main_step close_healer close is_kept is_live
analyzer_gone-CanEnd a k gone = elim (Option-cases (close a.healer)) [
  | inl panics ↦ absurd (ground arith)
  | inr (l, closes) ↦
      let a' : Agents = record a { healer = l } in
      process_step-CanEnd (by_main goes_on) (stopping_analyzer, a) (stopping_healer, a')
        (ground arith) (stopping_healer-CanEnd a' (ground arith))
]

stopping_analyzer-CanEnd :
    (a : Agents) → is_live stopping_analyzer a ≡ true → CanEnd (stopping_analyzer, a)
unfolding process_step agent_step is_kept is_live
stopping_analyzer-CanEnd a k = elim (Bool-cases (is_gone a.analyzer)) [
  | inl gone ↦ analyzer_gone-CanEnd a k gone
  | inr stays ↦
      let a' : Agents = record a { analyzer = returned } in
      process_step-CanEnd (by_agent analyzer_returns) (stopping_analyzer, a) (stopping_analyzer, a')
        (ground arith) (analyzer_gone-CanEnd a' (ground arith) refl)
]

serving-CanEnd : (a : Agents) → is_live serving a ≡ true → CanEnd (serving, a)
unfolding process_step main_step close_analyzer close is_kept is_live
serving-CanEnd a k = elim (Option-cases (close a.analyzer)) [
  | inl panics ↦ absurd (ground arith)
  | inr (l, closes) ↦
      let a' : Agents = record a { analyzer = l } in
      process_step-CanEnd (by_main signal) (serving, a) (stopping_analyzer, a') (ground arith)
        (stopping_analyzer-CanEnd a' (ground arith))
]

-- At the end with the code 0 or 1, or with a way to the end with 0.
kept-CanEnd :
    (ph : MainPhase) (a : Agents)
    → is_live ph a ≡ true
    → ((code : ℕ) × (ph ≡ exited code) × (code ≤ 1)) ⊎ CanEnd (ph, a)
unfolding is_kept is_live
kept-CanEnd serving a k = inr (serving-CanEnd a k)
kept-CanEnd stopping_analyzer a k = inr (stopping_analyzer-CanEnd a k)
kept-CanEnd stopping_healer a k = inr (stopping_healer-CanEnd a k)
kept-CanEnd draining a k = inr (draining-CanEnd a k)
kept-CanEnd closing a k = inr (closing-CanEnd a (ground arith) (ground arith))
kept-CanEnd (exited code) a k = inl (code, refl, ground arith)

-- While the lock of the metrics handler is not held for good, the gateway neither panics nor
-- blocks: after any run from its start, it has ended with the code 0 or 1, or there is a way to go
-- on to the end with the code 0.
pub end_is_reachable :
    {R : Type 0} (r : Running R) (es : List ProcessEvent) (ph : MainPhase) (a : Agents)
    → run_process es (launch r) ≡ some (ph, a)
    → a.is_lock_lost ≡ false
    → ((code : ℕ) × (ph ≡ exited code) × (code ≤ 1)) ⊎ CanEnd (ph, a)
unfolding is_blocked_by_lock is_live
end_is_reachable r es ph a e held =
    let kept = run_process-is_kept es (launch r) (ph, a) (launch-is_kept r) e in
    let free =
      run_process-is_blocked_by_lock es (launch r) (ph, a) (launch-is_blocked_by_lock r) e in
    kept-CanEnd ph a (ground (arith, kept, free, held))
