-- ===== src/Client/Wait/Updating.antt =====
-- What `wait_for_resource_create_or_update` returns, and how often it acts.
use mlops_templates.Prelude.{ℕ, zero, suc, ◌+◌, ◌-◌, ◌≤◌, ◌≡◌, refl, arith, ◌∙◌}
use mlops_templates.Text.{Text}
use mlops_templates.Outcome.{Result, ok, err, Exec, resource_exists, world, ◌>>=◌, continue}
use mlops_templates.Outcome.Laws.{world-continue}
use mlops_templates.Client.Host.{Host, Line, update_waits}
use mlops_templates.Client.Wait.{
  Resource, wait_for_poller, wait_for_resource_terminal_state, after_update, update_loop,
  wait_for_resource_create_or_update,
}
use mlops_templates.Client.Wait.Polling.{IsKept, wait-Q, IsSucceeded, wait-IsSucceeded}

module _ {W P R : Type 0} (host : Host W) (service : Resource W P R) where
  module _ (description : Text) (interval : ℕ) where
    abbrev terminal : ℕ → Exec W R
    terminal = wait_for_resource_terminal_state host service description interval

    after_update-IsSucceeded :
        (polls updates left : ℕ) (again : Exec W R) (o : Result (Unit {0}) × W) {u : W} {r : R}
        → ((w : W) → again w ≡ (ok r, u) → IsSucceeded service r)
        → after_update host service description interval polls updates left again o ≡ (ok r, u)
        → IsSucceeded service r
    unfolding after_update
    after_update-IsSucceeded polls updates left again (ok _, w) rest e =
        wait-IsSucceeded host service description interval polls w e
    after_update-IsSucceeded polls updates zero again (err resource_exists, w) rest e = ground arith
    after_update-IsSucceeded polls updates (suc left) again (err resource_exists, w) rest e =
        ground (
          arith,
          rest (
              world (
                terminal polls
                  (host.print (update_waits description (updates - suc left) updates) w))),
        )
    after_update-IsSucceeded polls updates left again (err _, w) rest e = ground arith

    update_loop-IsSucceeded :
        (polls updates left : ℕ) (w : W) {u : W} {r : R}
        → update_loop host service description interval polls updates left w ≡ (ok r, u)
        → IsSucceeded service r
    unfolding update_loop
    update_loop-IsSucceeded polls updates zero w e = ground arith
    update_loop-IsSucceeded polls updates (suc left) w e =
        after_update-IsSucceeded polls updates left _ _
          (λ v. update_loop-IsSucceeded polls updates left v) e

    -- Whatever the Azure services answer, `wait_for_resource_create_or_update` returns no resource
    -- that is not in a success state.
    pub wait_for_resource_create_or_update-IsSucceeded :
        (polls updates : ℕ) (w : W) {u : W} {r : R}
        → wait_for_resource_create_or_update host service description interval polls updates w
          ≡ (ok r, u)
        → IsSucceeded service r
    unfolding wait_for_resource_create_or_update
    wait_for_resource_create_or_update-IsSucceeded polls updates w {u} {r} e =
        ground (arith, update_loop-IsSucceeded polls updates updates w {u = u} {r = r})

-- `updates` counts the calls of `begin_create_or_update`: each adds one, and no other call of the
-- service or of the machine adds any.
pub record IsUpdateCount {W P R : Type 0} (host : Host W) (service : Resource W P R)
    (updates : W → ℕ) : Type 0 where
  pub begin : (w : W) → updates (world (service.begin w)) ≡ updates w + 1
  pub poller_result : (p : P) (w : W) → updates (world (service.poller_result p w)) ≡ updates w
  pub get : (w : W) → updates (world (service.get w)) ≡ updates w
  pub print : (line : Line) (w : W) → updates (host.print line w) ≡ updates w
  pub sleep : (n : ℕ) (w : W) → updates (host.sleep n w) ≡ updates w

module _ {W P R : Type 0} (host : Host W) (service : Resource W P R) where
  module _ (description : Text) (interval : ℕ) (count : W → ℕ) where
    module _ (counts : IsUpdateCount host service count) where
      count-IsKept : (c : ℕ) → IsKept host service (λ w. count w ≡ c)
      count-IsKept c = record {
        get = λ w e. counts.get w ∙ e;
        print = λ line w e. counts.print line w ∙ e;
        sleep = λ n w e. counts.sleep n w ∙ e;
      }

      count-terminal :
          (n : ℕ) (w : W) → count (world (terminal host service description interval n w)) ≡ count w
      count-terminal n w =
          wait-Q host service description interval (λ v. count v ≡ count w) (count-IsKept (count w))
            n w refl

      count-update :
          (w : W) → count (world ((service.begin >>= wait_for_poller host service) w)) ≡ count w + 1
      unfolding wait_for_poller
      count-update w =
          world-continue (λ v. count v ≡ count w + 1) (wait_for_poller host service)
            (service.begin w) (λ p v e. counts.poller_result p v ∙ e) (counts.begin w)

      count-then :
          (again : Exec W R) (k : ℕ) (o : Result R × W)
          → ((w : W) → count (world (again w)) ≤ count w + k)
          → count (world (continue (λ (r : R). again) o)) ≤ count (world o) + k
      count-then again k (ok r, w) rest = rest w
      count-then again k (err exn, w) rest = omega arith

      after_update-count :
          (polls updates left : ℕ) (again : Exec W R) (o : Result (Unit {0}) × W)
          → ((w : W) → count (world (again w)) ≤ count w + left)
          → count
              (world (after_update host service description interval polls updates left again o))
            ≤ count (world o) + left
      unfolding after_update
      after_update-count polls updates left again (ok _, w) rest =
          omega (arith, count-terminal polls w)
      after_update-count polls updates zero again (err resource_exists, w) rest = omega arith
      after_update-count polls updates (suc left) again (err resource_exists, w) rest =
          let v = host.print (update_waits description (updates - suc left) updates) w in
          ground (
            arith,
            count-then again (suc left) (terminal host service description interval polls v) rest,
            count-terminal polls v,
            counts.print (update_waits description (updates - suc left) updates) w,
          )
      after_update-count polls updates left again (err _, w) rest = omega arith

      update_loop-count :
          (polls updates left : ℕ) (w : W)
          → count (world (update_loop host service description interval polls updates left w))
            ≤ count w + left
      unfolding update_loop
      update_loop-count polls updates zero w = omega arith
      update_loop-count polls updates (suc left) w = omega (
        arith,
        after_update-count polls updates left
            (update_loop host service description interval polls updates left)
            ((service.begin >>= wait_for_poller host service) w)
            (update_loop-count polls updates left),
        count-update w,
      )

      -- However the Azure services answer, `wait_for_resource_create_or_update` starts at most
      -- `max_update_attempts` updates.
      pub wait_for_resource_create_or_update-count :
          (polls updates : ℕ) (w : W)
          → count (
              world (
                wait_for_resource_create_or_update host service description interval polls updates
                  w))
            ≤ count w + updates
      unfolding wait_for_resource_create_or_update
      wait_for_resource_create_or_update-count polls updates w =
          ground (arith, update_loop-count polls updates updates w)
