-- ===== src/Engine/Lifecycle.antt =====
-- Start and Stop of internal/engine/engine.go against a machine with two phases: idle, and active
-- with the servers of the mode.
use siteboost_core.Config.Types.{Config as AppConfig}
use siteboost_core.Engine.Modes.{expected_servers, with_up, AllOrNone, start_mode-AllOrNone}
use siteboost_core.Engine.Stopping.{reset, still_up, restore_system, stop_servers, stop}
use siteboost_core.Engine.Types.{
  Servers, no_servers, World, EngineError, already_running, Calls, Engine,
}
use siteboost_core.Engine.Planning.{Plan, make_plan}
use siteboost_core.Engine.Starting.{Parts}
use siteboost_core.Engine.Running.{
  Reply, start_mode, commit_started, start_checked, start_if, start,
}
use siteboost_core.Common.{
  Bool-cases, Result, ok, err, Result-cases, ok_value, ◌≡◌, refl, sym, ap, subst, ◌⊎◌, inl, inr,
  Bool, true, false, not, ◌&&◌, ◌||◌, none, some, arith,
}
use siteboost_core.Text.{text_eq}
use siteboost_core.External.{Externals}
use siteboost_core.Config.Names.{mode_pac, mode_hosts, mode_dns}

module _ {S : Type 0} where
  -- The engine holds no server, and none is up.
  abbrev pub IsStopped : Engine → World S → Type 0
  IsStopped e w = (e.running ≡ false) × (e.servers ≡ no_servers) × (w.up ≡ no_servers)

  -- The engine holds the servers of its mode, and they are the ones that are up.
  abbrev pub IsUp : Engine → World S → Type 0
  IsUp e w =
      (e.running ≡ true) × (e.servers ≡ expected_servers e.cfg) × (w.up ≡ expected_servers e.cfg)

  -- An error that leaves the engine and the servers as they were, or a start.
  abbrev pub IsStarted : AppConfig → Engine → Reply S → Type 0
  IsStarted cfg e (reply, next, w) =
      ((cause : EngineError) × (reply ≡ some cause) × (next ≡ e) × (w.up ≡ no_servers))
      ⊎ ((reply ≡ none) × (next.cfg ≡ cfg) × IsUp next w)

module _ {S : Type 0} (x : Externals) (calls : Calls S) where
  commit_started-IsStarted :
      (plan : Plan) (e : Engine) (started : Result EngineError Parts × World S)
      → AllOrNone (expected_servers e.cfg) started
      → IsStarted e.cfg e (commit_started x calls plan started e)
  unfolding commit_started
  commit_started-IsStarted plan e (ok parts, w) (inl (cause, bad, _)) = cc bad
  commit_started-IsStarted plan e (ok parts, w) (inr (p, same, held, up)) = inr (
    refl,
    refl,
    (refl, subst (λ p. p.servers ≡ expected_servers e.cfg) (sym (ok_value same)) held, up),
  )
  commit_started-IsStarted plan e (err cause, w) (inl (c, same, down)) =
      inl (cause, refl, refl, down)
  commit_started-IsStarted plan e (err cause, w) (inr (p, bad, _, _)) = cc bad

  start_checked-IsStarted :
      (e : Engine) (system : S)
      → IsStarted e.cfg e (start_checked x calls e (with_up no_servers system))
  unfolding start_checked
  start_checked-IsStarted e system = elim (Result-cases (make_plan x e.cfg)) [
    | inr (cause, bad) ↦ rw (bad, start_checked) (inl (cause, refl, refl, refl))
    | inl (plan, made) ↦
        rw (made, start_checked)
          (commit_started-IsStarted plan e
            (start_mode x calls e.cfg plan (with_up no_servers system))
            (start_mode-AllOrNone x calls e.cfg plan system))
  ]

  -- Start does nothing and says so where the engine runs already; else it ends with the servers of
  -- the mode up and held, or with an error, the engine as it was, and no server up.
  pub start-IsStarted :
      (e : Engine) (w : World S) → IsStopped e w → IsStarted e.cfg e (start x calls e w)
  unfolding start
  start-IsStarted e w (idle, none_held, none_up) =
      let read : start x calls e w ≡ start_checked x calls e w =
        ap (λ on. start_if x calls on e w) idle in
      subst (IsStarted e.cfg e) (sym read) (
        subst (λ up. IsStarted e.cfg e (start_checked x calls e (with_up up w.system)))
          (sym none_up) (start_checked-IsStarted e w.system))

  pub start_running :
      (e : Engine) (w : World S)
      → e.running ≡ true
      → start x calls e w ≡ (some already_running, e, w)
  unfolding start
  start_running e w on = ap (λ b. start_if x calls b e w) on

  and_not : (b : Bool) → (b && not b) ≡ false
  and_not b = ground arith

  still_up_none : (servers : Servers) → still_up servers servers ≡ no_servers
  still_up_none servers =
      rw (and_not servers.proxy, and_not servers.pac, and_not servers.reverse, and_not servers.dns)

  some_server :
      (cfg : AppConfig)
      → ((expected_servers cfg).proxy
          || (expected_servers cfg).reverse
          || (expected_servers cfg).dns)
        ≡ true
  unfolding expected_servers
  some_server cfg = elim (Bool-cases (text_eq cfg.mode mode_hosts)) [
    | inl hosts ↦ rw (hosts, expected_servers)
    | inr other ↦ elim (Bool-cases (text_eq cfg.mode mode_dns)) [
      | inl dns ↦ rw (other, dns, expected_servers)
      | inr proxied ↦ elim (Bool-cases (text_eq cfg.mode mode_pac)) [
        | inl pac ↦ rw (other, proxied, pac, expected_servers)
        | inr plain ↦ rw (other, proxied, plain, expected_servers)
      ]
    ]
  ]

  -- What a stop leaves of an engine that holds servers.
  abbrev pub stopped_up : Engine → World S → Reply S
  stopped_up e w =
      let (cause, back) = restore_system calls e.cfg w.system in
      let last = stop_servers calls e.servers cause in
      (
        last,
        record (reset e) { last_err = last },
        record { up = still_up e.servers w.up; system = back },
      )

  pub stop_held :
      (e : Engine) (w : World S)
      → (e.servers.proxy || e.servers.reverse || e.servers.dns) ≡ true
      → stop calls e w ≡ stopped_up e w
  unfolding stop
  stop_held e w held = rw (held, stop)

  pub stop_idle :
      (e : Engine) (w : World S) → e.servers ≡ no_servers → stop calls e w ≡ (none, reset e, w)
  unfolding stop
  stop_idle e w held = rw (held, stop)

  -- Stop from either phase, whatever the calls report, leaves the engine without servers and not
  -- running, no server up, and the configuration as it was.
  pub stop-IsStopped :
      (e : Engine) (w : World S)
      → IsStopped e w ⊎ IsUp e w
      → IsStopped (stop calls e w).1 (stop calls e w).2 × ((stop calls e w).1.cfg ≡ e.cfg)
  stop-IsStopped e w (inl (_, held, up)) = rw (stop_idle e w held) ((refl, refl, up), refl)
  stop-IsStopped e w (inr (_, held, up)) =
      rw
        (stop_held e w
          (subst (λ s. (s.proxy || s.reverse || s.dns) ≡ true) (sym held) (some_server e.cfg)))
        ((refl, refl, rw (held, up) (still_up_none (expected_servers e.cfg))), refl)
