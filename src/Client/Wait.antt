-- ===== src/Client/Wait.antt =====
-- `wait_for_poller`, `wait_for_resource_create_or_update` and `wait_for_resource_terminal_state` of
-- src/python-sdk-v2/aml_client.py. A resource is whatever `get_resource` returns; of it the
-- functions read the attribute `provisioning_state`, by `state_of`.
pub mod States
pub mod Polling
pub mod Updating
pub mod Kept
mod Tests
use mlops_templates.Prelude.{
  ℕ, zero, suc, ◌-◌, Bool, true, false, Option, none, some, ltb, ◌==◌, if◌then◌else◌,
}
use mlops_templates.Text.{Text, one_of, or_none}
use mlops_templates.Outcome.{
  Exn, Result, ok, err, Exec, pure, raise, act, ◌>>=◌, ◌>>◌, runtime_error, timeout_error,
  value_error, assertion_error, resource_exists, max_state_polls_too_small,
  max_update_attempts_too_small, update_blocked, provisioning_failed, no_terminal_state,
}
use mlops_templates.Client.Host.{Host, update_waits, provisioning_state}
use States.{is_success_state, is_failed_state}

-- What the two callbacks and the poller of the Azure SDK do. `begin` returns a poller, and
-- `poller_result` is that poller's `result()`.
pub record Resource (W P R : Type 0) : Type 0 where
  pub begin : Exec W P
  pub poller_result : P → Exec W (Unit {0})
  pub get : Exec W R
  pub state_of : R → Option Text

module _ {W P R : Type 0} (host : Host W) (service : Resource W P R) where
  unfoldable pub wait_for_poller : P → Exec W (Unit {0})
  wait_for_poller poller = service.poller_result poller

  module _ (description : Text) (interval : ℕ) where
    -- `if resource is None: resource = get_resource()`
    unfoldable pub fetch : Option R → Exec W R
    fetch none = service.get
    fetch (some resource) = pure resource

    -- The body of the loop over `poll_number`, with the rounds that are left.
    unfoldable pub poll_state : ℕ → Option R → Exec W R
    poll_state zero resource = raise (timeout_error no_terminal_state)
    poll_state (suc left) resource = do
      found ← fetch resource
      let state = or_none (service.state_of found)
      act (host.print (provisioning_state description state))
      let sleeps = (do act (host.sleep interval); again ← service.get; poll_state left (some again))
      if is_success_state state
          then pure found
          else if is_failed_state state
          then raise (runtime_error provisioning_failed)
          else if left == 0
          then raise (timeout_error no_terminal_state)
          else sleeps

    unfoldable pub wait_for_resource_terminal_state : ℕ → Exec W R
    wait_for_resource_terminal_state max_state_polls =
        if ltb max_state_polls 1
        then raise (value_error max_state_polls_too_small)
        else poll_state max_state_polls none

    -- What follows `wait_for_poller(begin_create_or_update())` in a round: `again` is the rest of
    -- the loop, with `left` further attempts.
    unfoldable pub after_update : ℕ → ℕ → ℕ → Exec W R → Result (Unit {0}) × W → Result R × W
    after_update max_polls max_updates left again (ok _, w) =
        wait_for_resource_terminal_state max_polls w
    after_update max_polls max_updates left again (err resource_exists, w) =
        if left == 0
        then raise (runtime_error update_blocked) w
        else (do
          act (host.print (update_waits description (max_updates - left) max_updates))
          _ ← wait_for_resource_terminal_state max_polls
          again)
            w
    after_update max_polls max_updates left again (err exn, w) = (err exn, w)

    -- The loop over `attempt`, with the attempts that are left.
    unfoldable pub update_loop : ℕ → ℕ → ℕ → Exec W R
    update_loop max_polls max_updates zero w = raise assertion_error w
    update_loop max_polls max_updates (suc left) w =
        after_update max_polls max_updates left (update_loop max_polls max_updates left)
          ((service.begin >>= wait_for_poller) w)

    unfoldable pub wait_for_resource_create_or_update : ℕ → ℕ → Exec W R
    wait_for_resource_create_or_update max_state_polls max_update_attempts =
        if ltb max_state_polls 1
        then raise (value_error max_state_polls_too_small)
        else if ltb max_update_attempts 1
        then raise (value_error max_update_attempts_too_small)
        else update_loop max_state_polls max_update_attempts max_update_attempts
