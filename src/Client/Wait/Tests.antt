-- ===== src/Client/Wait/Tests.antt =====
-- Runs of the waiting loops against a service whose state is a number.
use mlops_templates.Prelude.{ℕ, ◌+◌, ◌≤◌, ◌≡◌, ◌↔◌, refl, some, arith, ltb, if◌then◌else◌}
use mlops_templates.Text.{str}
use mlops_templates.Outcome.{
  ok, err, Exec, world, runtime_error, timeout_error, update_blocked, no_terminal_state,
  resource_exists,
}
use mlops_templates.Client.Host.{Host}
use mlops_templates.Client.Wait.{
  Resource, fetch, poll_state, wait_for_poller, after_update, update_loop,
  wait_for_resource_terminal_state, wait_for_resource_create_or_update,
}
use mlops_templates.Client.Wait.States.{is_success_state, is_failed_state}
use mlops_templates.Client.Wait.Polling.{Ends, IsSucceeded, wait_for_resource_terminal_state-Ends}
use mlops_templates.Client.Wait.Updating.{
  IsUpdateCount, wait_for_resource_create_or_update-IsSucceeded,
  wait_for_resource_create_or_update-count,
}

-- The hours that have passed, and the updates that were started.
record Clock : Type 0 where
  now : ℕ
  updates : ℕ

abbrev quiet : Host Clock
quiet = record { print = λ line w. w; sleep = λ n w. record w { now = w.now + 1 } }

-- The resource is ready two hours after the start. An update is turned away in the first hour.
abbrev begin : Exec Clock (Unit {0})
begin w = (if ltb w.now 1 then err resource_exists else ok tt, record w { updates = w.updates + 1 })

abbrev slow : Resource Clock (Unit {0}) ℕ
slow = record {
  begin = begin;
  poller_result = λ p w. (ok tt, w);
  get = λ w. (ok w.now, w);
  state_of = λ n. some (if ltb n 2 then str "Updating" else str "Succeeded");
}

abbrev start : Clock
start = record { now = 0; updates = 0 }

waits :
    wait_for_resource_terminal_state quiet slow (str "x") 5 3 start
    ≡ (ok 2, record { now = 2; updates = 0 })
unfolding wait_for_resource_terminal_state poll_state fetch is_success_state is_failed_state
waits = refl

times_out :
    wait_for_resource_terminal_state quiet slow (str "x") 5 2 start
    ≡ (err (timeout_error no_terminal_state), record { now = 1; updates = 0 })
unfolding wait_for_resource_terminal_state poll_state fetch is_success_state is_failed_state
times_out = refl

retries :
    wait_for_resource_create_or_update quiet slow (str "x") 5 3 3 start
    ≡ (ok 2, record { now = 2; updates = 2 })
unfolding wait_for_resource_create_or_update update_loop after_update wait_for_poller
    wait_for_resource_terminal_state poll_state fetch is_success_state is_failed_state
retries = refl

stays_blocked :
    wait_for_resource_create_or_update quiet slow (str "x") 5 3 1 start
    ≡ (err (runtime_error update_blocked), record { now = 0; updates = 1 })
unfolding wait_for_resource_create_or_update update_loop after_update wait_for_poller
    wait_for_resource_terminal_state poll_state fetch is_success_state is_failed_state
stays_blocked = refl

wait_for_resource_terminal_state-Ends_example :
    (wait_for_resource_terminal_state quiet slow (str "x") 5 3 start
      ≡ (ok 2, record { now = 2; updates = 0 }))
    ↔ Ends quiet slow (str "x") 5 3 start (ok 2, record { now = 2; updates = 0 })
wait_for_resource_terminal_state-Ends_example =
    wait_for_resource_terminal_state-Ends quiet slow (str "x") 5 3 start
      (ok 2, record { now = 2; updates = 0 }) (omega arith)

wait_for_resource_create_or_update-IsSucceeded_example : IsSucceeded slow 2
wait_for_resource_create_or_update-IsSucceeded_example =
    wait_for_resource_create_or_update-IsSucceeded quiet slow (str "x") 5 3 3 start retries

slow-IsUpdateCount : IsUpdateCount quiet slow (λ w. w.updates)
slow-IsUpdateCount = record {
  begin = λ w. refl;
  poller_result = λ p w. refl;
  get = λ w. refl;
  print = λ line w. refl;
  sleep = λ n w. refl;
}

wait_for_resource_create_or_update-count_example :
    (world (wait_for_resource_create_or_update quiet slow (str "x") 5 3 3 start)).updates ≤ 0 + 3
wait_for_resource_create_or_update-count_example =
    wait_for_resource_create_or_update-count quiet slow (str "x") 5 (λ w. w.updates)
      slow-IsUpdateCount 3 3 start
