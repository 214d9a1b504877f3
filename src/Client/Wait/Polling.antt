-- ===== src/Client/Wait/Polling.antt =====
-- What `wait_for_resource_terminal_state` returns, against a description of the polling by rounds.
use mlops_templates.Prelude.{
  Bool-cases, sym, subst, ◌≤◌, inl, inr, ℕ, zero, suc, ◌-◌, ◌<◌, ◌≡◌, refl, ◌↔◌, true, false, none,
  arith, ap, ◌∙◌,
}
use mlops_templates.Text.{Text, or_none}
use mlops_templates.Outcome.{
  Exn, Result, ok, err, Exec, world, runtime_error, timeout_error, provisioning_failed,
  no_terminal_state,
}
use mlops_templates.Client.Host.{Host, Line, provisioning_state}
use mlops_templates.Client.Wait.{Resource, fetch, poll_state, wait_for_resource_terminal_state}
use mlops_templates.Client.Wait.States.{is_success_state, is_failed_state}

module _ {W P R : Type 0} (service : Resource W P R) where
  abbrev pub state_text : R → Text
  state_text r = or_none (service.state_of r)

  abbrev pub IsSucceeded : R → Type 0
  IsSucceeded r = is_success_state (state_text r) ≡ true

  abbrev pub IsFailed : R → Type 0
  IsFailed r = (is_success_state (state_text r) ≡ false) × (is_failed_state (state_text r) ≡ true)

  abbrev pub IsPending : R → Type 0
  IsPending r = (is_success_state (state_text r) ≡ false) × (is_failed_state (state_text r) ≡ false)

module _ {W P R : Type 0} (host : Host W) (service : Resource W P R) where
  module _ (description : Text) (interval : ℕ) where
    -- the world after a round has shown what it read
    abbrev pub shown : R → W → W
    shown r = host.print (provisioning_state description (state_text service r))

    -- `Pending k w v`: from `w`, `k` rounds in a row read a state that is not terminal, showed it
    -- and slept, and left the world `v`.
    pub data Pending : ℕ → W → W → Type 0 where
      here : {w : W} → Pending zero w w
      next :
          {k : ℕ} {w u v : W} (r : R)
          → service.get w ≡ (ok r, u)
          → IsPending service r
          → Pending k (host.sleep interval (shown r u)) v
          → Pending (suc k) w v

    poll : ℕ → Exec W R
    poll n = poll_state host service description interval n none

    poll-pending :
        (n : ℕ) (w u : W) (r : R)
        → service.get w ≡ (ok r, u)
        → IsPending service r
        → poll (suc (suc n)) w ≡ poll (suc n) (host.sleep interval (shown r u))
    unfolding poll poll_state fetch
    poll-pending n w u r e p = ground arith

    -- `Ends n w o`: the polling from `w`, with at most `n` rounds, may end in `o`.
    pub data Ends (n : ℕ) (w : W) (o : Result R × W) : Type 0 where
      succeeded :
          {k : ℕ} {v u : W} (r : R)
          → k < n
          → Pending k w v
          → service.get v ≡ (ok r, u)
          → IsSucceeded service r
          → o ≡ (ok r, shown r u)
          → Ends n w o
      failed :
          {k : ℕ} {v u : W} (r : R)
          → k < n
          → Pending k w v
          → service.get v ≡ (ok r, u)
          → IsFailed service r
          → o ≡ (err (runtime_error provisioning_failed), shown r u)
          → Ends n w o
      get_raised :
          {k : ℕ} {v u : W} (exn : Exn)
          → k < n
          → Pending k w v
          → service.get v ≡ (err exn, u)
          → o ≡ (err exn, u)
          → Ends n w o
      timed_out :
          {k : ℕ} {v u : W} (r : R)
          → suc k ≡ n
          → Pending k w v
          → service.get v ≡ (ok r, u)
          → IsPending service r
          → o ≡ (err (timeout_error no_terminal_state), shown r u)
          → Ends n w o

    Ends-next :
        {n : ℕ} {w u : W} {o : Result R × W} (r : R)
        → service.get w ≡ (ok r, u)
        → IsPending service r
        → Ends n (host.sleep interval (shown r u)) o
        → Ends (suc n) w o
    Ends-next r e p (succeeded s h q g c h') = succeeded s (omega arith) (next r e p q) g c h'
    Ends-next r e p (failed s h q g c h') = failed s (omega arith) (next r e p q) g c h'
    Ends-next r e p (get_raised exn h q g h') = get_raised exn (omega arith) (next r e p q) g h'
    Ends-next r e p (timed_out s h q g c h') = timed_out s (ap suc h) (next r e p q) g c h'

    -- A round that ends the polling; `waits` answers for one that does not.
    Ends-round :
        (n : ℕ) (w : W) (g : Result R × W)
        → service.get w ≡ g
        → ((r : R) (u : W)
            → service.get w ≡ (ok r, u)
            → IsPending service r
            → Ends (suc n) w (poll (suc n) w))
        → Ends (suc n) w (poll (suc n) w)
    unfolding poll poll_state fetch
    Ends-round n w (err exn, u) e waits = get_raised exn (omega arith) here e (ground arith)
    Ends-round n w (ok r, u) e waits = elim (Bool-cases (is_success_state (state_text service r))) [
      | inl good ↦ succeeded r (omega arith) here e good (ground arith)
      | inr not_good ↦ elim (Bool-cases (is_failed_state (state_text service r))) [
        | inl bad ↦ failed r (omega arith) here e (not_good, bad) (ground arith)
        | inr not_bad ↦ waits r u e (not_good, not_bad)
      ]
    ]

    poll-last :
        (w u : W) (r : R)
        → service.get w ≡ (ok r, u)
        → IsPending service r
        → poll 1 w ≡ (err (timeout_error no_terminal_state), shown r u)
    unfolding poll poll_state fetch
    poll-last w u r e p = ground arith

    Ends-poll : (n : ℕ) (w : W) → Ends (suc n) w (poll (suc n) w)
    Ends-poll zero w =
        Ends-round zero w (service.get w) refl
          λ r u e p. timed_out r refl here e p (poll-last w u r e p)
    Ends-poll (suc n) w = Ends-round (suc n) w (service.get w) refl λ r u e p.
        Ends-next r e p
          (rw (poll-pending n w u r e p) (Ends-poll n (host.sleep interval (shown r u))))

    module _ (n : ℕ) (v u : W) where
      poll-succeeded :
          (r : R)
          → service.get v ≡ (ok r, u)
          → IsSucceeded service r
          → poll (suc n) v ≡ (ok r, shown r u)
      unfolding poll poll_state fetch
      poll-succeeded r e c = ground arith

      poll-failed :
          (r : R)
          → service.get v ≡ (ok r, u)
          → IsFailed service r
          → poll (suc n) v ≡ (err (runtime_error provisioning_failed), shown r u)
      unfolding poll poll_state fetch
      poll-failed r e c = ground arith

      poll-raised : (exn : Exn) → service.get v ≡ (err exn, u) → poll (suc n) v ≡ (err exn, u)
      unfolding poll poll_state fetch
      poll-raised exn e = ground arith

    -- After `k` pending rounds the rest of the budget polls on.
    poll-Pending :
        {k : ℕ} {w v : W} → Pending k w v → (n : ℕ) → k < n → poll n w ≡ poll (suc (n - suc k)) v
    poll-Pending (here {w = w}) n h = ap (λ m. poll m w) (omega arith)
    poll-Pending (next r e p q) zero h = absurd (omega arith)
    poll-Pending (next r e p q) (suc zero) h = absurd (omega arith)
    poll-Pending (next {k = k} {w = w} {u = u} {v = v} r e p q) (suc (suc n)) h =
        poll-pending n w u r e p
        ∙ poll-Pending q (suc n) (omega arith)
        ∙ ap (λ m. poll m v) (omega arith)

    -- Whatever the rounds allow to happen is what happens.
    poll-Ends : (n : ℕ) (w : W) {o : Result R × W} → Ends n w o → poll n w ≡ o
    poll-Ends n w (succeeded r h q g c e) = poll-Pending q n h ∙ poll-succeeded _ _ _ r g c ∙ sym e
    poll-Ends n w (failed r h q g c e) = poll-Pending q n h ∙ poll-failed _ _ _ r g c ∙ sym e
    poll-Ends n w (get_raised exn h q g e) = poll-Pending q n h ∙ poll-raised _ _ _ exn g ∙ sym e
    poll-Ends n w (timed_out {k = k} {v = v} {u = u} r h q g c e) =
        poll-Pending q n (omega arith)
        ∙ ap (λ m. poll (suc m) v) (omega arith)
        ∙ poll-last v u r g c
        ∙ sym e

    wait-eq-poll :
        (n : ℕ) (w : W)
        → wait_for_resource_terminal_state host service description interval (suc n) w
          ≡ poll (suc n) w
    unfolding wait_for_resource_terminal_state poll
    wait-eq-poll n w = ground arith

    -- With at least one check allowed, `wait_for_resource_terminal_state` ends in an outcome exactly
    -- when the rounds may end in it: it returns a resource read in a success state, raises
    -- RuntimeError on a failed state, passes on what `get_resource` raises, or raises TimeoutError
    -- after as many pending checks as are allowed, having slept after every pending check but the last.
    pub wait_for_resource_terminal_state-Ends :
        (n : ℕ) (w : W) (o : Result R × W)
        → 1 ≤ n
        → (wait_for_resource_terminal_state host service description interval n w ≡ o) ↔ Ends n w o
    wait_for_resource_terminal_state-Ends zero w o h = absurd (omega arith)
    wait_for_resource_terminal_state-Ends (suc n) w o h =
        rw (wait-eq-poll n w)
          (λ e. subst (λ x. Ends (suc n) w x) e (Ends-poll n w), λ d. poll-Ends (suc n) w d)

    Ends-IsSucceeded : {n : ℕ} {w u : W} {r : R} → Ends n w (ok r, u) → IsSucceeded service r
    Ends-IsSucceeded (succeeded s h q g c x) = ground arith
    Ends-IsSucceeded (failed s h q g c x) = ground arith
    Ends-IsSucceeded (get_raised exn h q g x) = ground arith
    Ends-IsSucceeded (timed_out s h q g c x) = ground arith

    -- A resource that `wait_for_resource_terminal_state` returns is in a success state.
    pub wait-IsSucceeded :
        (n : ℕ) (w : W) {u : W} {r : R}
        → wait_for_resource_terminal_state host service description interval n w ≡ (ok r, u)
        → IsSucceeded service r
    unfolding wait_for_resource_terminal_state
    wait-IsSucceeded zero w e = ground arith
    wait-IsSucceeded (suc n) w {u} {r} e =
        Ends-IsSucceeded
          ((wait_for_resource_terminal_state-Ends (suc n) w (ok r, u) (omega arith)).0 e)

-- A fact of the world that reading the resource, printing and sleeping keep.
pub record IsKept {W P R : Type 0} (host : Host W) (service : Resource W P R) (Q : W → Type 0)
    : Type 0 where
  pub get : (w : W) → Q w → Q (world (service.get w))
  pub print : (line : Line) (w : W) → Q w → Q (host.print line w)
  pub sleep : (n : ℕ) (w : W) → Q w → Q (host.sleep n w)

module _ {W P R : Type 0} (host : Host W) (service : Resource W P R) where
  module _ (description : Text) (interval : ℕ) (Q : W → Type 0) (kept : IsKept host service Q) where
    get-Q : {w u : W} {x : Result R} → service.get w ≡ (x, u) → Q w → Q u
    get-Q {w} e q = subst (λ o. Q (world o)) e (kept.get w q)

    Pending-Q : {k : ℕ} {w v : W} → Pending host service description interval k w v → Q w → Q v
    Pending-Q here q = q
    Pending-Q (next r e p d) q = Pending-Q d (kept.sleep _ _ (kept.print _ _ (get-Q e q)))

    world-Q : {o : Result R × W} {x : Result R} {u : W} → o ≡ (x, u) → Q u → Q (world o)
    world-Q e q = subst (λ o. Q (world o)) (sym e) q

    Ends-Q :
        {n : ℕ} {w : W} {o : Result R × W}
        → Ends host service description interval n w o
        → Q w
        → Q (world o)
    Ends-Q (succeeded r h d g c e) q = world-Q e (kept.print _ _ (get-Q g (Pending-Q d q)))
    Ends-Q (failed r h d g c e) q = world-Q e (kept.print _ _ (get-Q g (Pending-Q d q)))
    Ends-Q (get_raised exn h d g e) q = world-Q e (get-Q g (Pending-Q d q))
    Ends-Q (timed_out r h d g c e) q = world-Q e (kept.print _ _ (get-Q g (Pending-Q d q)))

    -- Waiting for a terminal state keeps the fact, however it ends.
    pub wait-Q :
        (n : ℕ) (w : W)
        → Q w
        → Q (world (wait_for_resource_terminal_state host service description interval n w))
    unfolding wait_for_resource_terminal_state
    wait-Q zero w q = q
    wait-Q (suc n) w q =
        Ends-Q
          ((wait_for_resource_terminal_state-Ends host service description interval (suc n) w _
              (omega arith)).0
            refl)
          q
