-- ===== src/Client/Wait/Kept.antt =====
-- What `wait_for_resource_create_or_update` keeps of the world.
use mlops_templates.Prelude.{ℕ, zero, suc, ◌-◌, Bool, true, false, ltb, ◌==◌, if◌then◌else◌}
use mlops_templates.Text.{Text}
use mlops_templates.Outcome.{
  Result, ok, err, Exec, world, runtime_error, value_error, timeout_error, argument_type_error,
  assertion_error, resource_exists, resource_not_found, os_error, other, max_state_polls_too_small,
  max_update_attempts_too_small, update_blocked,
}
use mlops_templates.Outcome.Keeps.{Keeps, Keeps-raise, Keeps-act, Keeps-if, Keeps-bind, Keeps-then}
use mlops_templates.Client.Host.{Host, update_waits}
use mlops_templates.Client.Wait.{
  Resource, wait_for_poller, wait_for_resource_terminal_state, after_update, update_loop,
  wait_for_resource_create_or_update,
}
use mlops_templates.Client.Wait.Polling.{IsKept, wait-Q}

either_world :
    {W R : Type 0} (Q : W → Type 0) (b : Bool) (o p : Result R × W)
    → Q (world o)
    → Q (world p)
    → Q (world (if b then o else p))
either_world Q true o p qo qp = qo
either_world Q false o p qo qp = qp

module _ {W P R : Type 0} (host : Host W) (service : Resource W P R) {Q : W → Type 0}
    (kept : IsKept host service Q) (begun : Keeps Q service.begin)
    (polled : (poller : P) → Keeps Q (service.poller_result poller)) (description : Text)
    (interval : ℕ) where
  Keeps-terminal :
      (polls : ℕ)
      → Keeps Q (wait_for_resource_terminal_state host service description interval polls)
  Keeps-terminal polls = record { at = wait-Q host service description interval Q kept polls }

  Keeps-blocked :
      (polls updates left : ℕ) (again : Exec W R)
      → Keeps Q again
      → (w : W) → Q w
      → Q (
          world (
            after_update host service description interval polls updates left again
              (err resource_exists, w)))
  unfolding after_update
  Keeps-blocked polls updates left again rest w q =
      either_world Q (left == 0) (err (runtime_error update_blocked), w) _ q
        ((Keeps-then _ _
            (Keeps-act (host.print (update_waits description (updates - left) updates))
              (kept.print _))
            (Keeps-bind _ (λ r. again) (Keeps-terminal polls) (λ r. rest))).at
          w q)

  after_update-Q :
      (polls updates left : ℕ) (again : Exec W R) (o : Result (Unit {0}) × W)
      → Keeps Q again
      → Q (world o)
      → Q (world (after_update host service description interval polls updates left again o))
  unfolding after_update
  after_update-Q polls updates left again (ok _, w) rest q = (Keeps-terminal polls).at w q
  after_update-Q polls updates left again (err resource_exists, w) rest q =
      Keeps-blocked polls updates left again rest w q
  after_update-Q polls updates left again (err (runtime_error r), w) rest q = q
  after_update-Q polls updates left again (err (value_error r), w) rest q = q
  after_update-Q polls updates left again (err (timeout_error r), w) rest q = q
  after_update-Q polls updates left again (err (argument_type_error r), w) rest q = q
  after_update-Q polls updates left again (err assertion_error, w) rest q = q
  after_update-Q polls updates left again (err resource_not_found, w) rest q = q
  after_update-Q polls updates left again (err os_error, w) rest q = q
  after_update-Q polls updates left again (err other, w) rest q = q

  Keeps-update_loop :
      (polls updates left : ℕ)
      → Keeps Q (update_loop host service description interval polls updates left)
  unfolding update_loop wait_for_poller
  Keeps-update_loop polls updates zero = Keeps-raise _
  Keeps-update_loop polls updates (suc left) = record {
    at = λ w q.
        after_update-Q polls updates left _ _ (Keeps-update_loop polls updates left)
          ((Keeps-bind service.begin (wait_for_poller host service) begun polled).at w q);
  }

  -- What each call of the service and the terminal keep, the function keeps.
  pub Keeps-wait_for_resource_create_or_update :
      (polls updates : ℕ)
      → Keeps Q (wait_for_resource_create_or_update host service description interval polls updates)
  unfolding wait_for_resource_create_or_update
  Keeps-wait_for_resource_create_or_update polls updates =
      Keeps-if (ltb polls 1) _ _ (Keeps-raise (value_error max_state_polls_too_small)) (
        Keeps-if (ltb updates 1) _ _ (Keeps-raise (value_error max_update_attempts_too_small))
          (Keeps-update_loop polls updates updates))
