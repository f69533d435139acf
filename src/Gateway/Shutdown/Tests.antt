-- ===== src/Gateway/Shutdown/Tests.antt =====
-- The end of cmd/gateway/main.go at concrete runs.
use aizen_gate.Base.{ℕ, ◌≤◌, ◌≡◌, ◌⊎◌, refl, true, false, none, some, List, [], ◌∷◌}
use aizen_gate.RateLimit.TokenBucket.{new_token_bucket_limiter}
use aizen_gate.Gateway.Startup.{local}
use aizen_gate.Gateway.Boot.{Running}
use aizen_gate.Gateway.Shutdown.{
  looping, stuck, stopping_analyzer, Process, returned, Agents, analyzer_ticks, healer_ticks,
  analyzer_returns, healer_returns, watcher_returns, agent_step, draining, exited, signal, goes_on,
  drained, ProcessEvent, by_agent, by_main, run_process, launch,
}
use aizen_gate.Gateway.Shutdown.Kept.{no_tick_while_draining}
use aizen_gate.Gateway.Shutdown.Ends.{CanEnd, end_is_reachable}
use aizen_gate.Gateway.Shutdown.Blocked.{blocking, blocked_process, stop_can_block}

abbrev running : Running ℕ
running = record {
  client = record { connected = true; policies = []; has_callback = false; watching = true };
  limiter = local (new_token_bucket_limiter 10 20);
  proxy = record {
    target = record { scheme = "http"; host = "a"; printed = "http://a" };
    director = λ o. o;
  };
  agents = true;
}

-- A signal comes while the analyser asks the model, and the healer still takes a tick.
abbrev until_draining : List ProcessEvent
until_draining =
    by_agent (analyzer_ticks true)
    ∷ by_main signal
    ∷ by_agent (healer_ticks false)
    ∷ by_agent analyzer_returns
    ∷ by_main goes_on
    ∷ by_agent healer_returns
    ∷ by_main goes_on
    ∷ []

abbrev agents_while_draining : Agents
agents_while_draining = record {
  analyzer = returned;
  healer = returned;
  watcher = looping;
  queries = 1;
  is_lock_lost = false;
}

drains : run_process until_draining (launch running) ≡ some (draining, agents_while_draining)
unfolding run_process
drains = refl

no_tick_while_draining_example :
    (agent_step (analyzer_ticks true) agents_while_draining ≡ none)
    × (agent_step (healer_ticks true) agents_while_draining ≡ none)
no_tick_while_draining_example =
    no_tick_while_draining running until_draining agents_while_draining true drains

end_is_reachable_example :
    ((code : ℕ) × (draining ≡ exited code) × (code ≤ 1)) ⊎ CanEnd (draining, agents_while_draining)
end_is_reachable_example =
    end_is_reachable running until_draining draining agents_while_draining drains refl

-- The healer's next tick blocks as well.
abbrev afterwards : List ProcessEvent
afterwards = by_agent (healer_ticks false) ∷ []

abbrev both_blocked : Process
both_blocked = (stopping_analyzer, record (blocked_process running).1 { healer = stuck false })

blocks : run_process afterwards (blocked_process running) ≡ some both_blocked
unfolding run_process
blocks = refl

stop_can_block_example :
    (run_process blocking (launch running) ≡ some (blocked_process running))
    × (both_blocked.0 ≡ stopping_analyzer)
stop_can_block_example = stop_can_block running afterwards both_blocked refl blocks

-- The query is still in flight when the program is at its end.
query_is_cut_off :
    run_process
      (by_main (drained true) ∷ by_agent watcher_returns ∷ by_main goes_on ∷ [])
      (draining, agents_while_draining)
    ≡ some (exited 0, record agents_while_draining { watcher = returned })
unfolding run_process
query_is_cut_off = refl

-- `Stop` does not return while the loop runs.
waits_for_agents : run_process (by_main signal ∷ by_main goes_on ∷ []) (launch running) ≡ none
unfolding run_process
waits_for_agents = refl
