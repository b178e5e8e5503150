-- ===== src/Engine/Undoing.antt =====
-- What Start and Stop of internal/engine/engine.go leave of the system's settings.
use siteboost_core.Text.Laws.{text_eq_sound}
use siteboost_core.Engine.Modes.{with_up}
use siteboost_core.Engine.Lifecycle.{stop_held, stop_idle}
use siteboost_core.Engine.Stopping.{reset, note_stopped, restore_system, stop_servers, stop}
use siteboost_core.Engine.Types.{
  no_servers, World, was_restored, system_proxy_not_applied, proxy_not_stopped, Calls, Engine,
}
use siteboost_core.Engine.Planning.{Plan, make_plan}
use siteboost_core.Engine.Starting.{proxy_only}
use siteboost_core.Engine.Running.{
  proxy_parts, proxy_config, proxy_changed, change_proxy, start_proxy_modes, start_mode, commit,
  commit_started, start_checked, start_if, start,
}
use siteboost_core.Common.{
  ok, err, ◌≡◌, refl, sym, ap, ◌∙◌, subst, true, false, ◌||◌, none, some, [],
}
use siteboost_core.Text.{Text, text_eq}
use siteboost_core.External.{Externals}
use siteboost_core.Config.Names.{mode_pac, mode_system, mode_hosts, mode_dns}
use siteboost_core.SystemProxy.{ProxyError}

-- A text that equals one name differs from another.
pub differs :
    (value one two : Text)
    → text_eq value one ≡ true
    → text_eq one two ≡ false
    → text_eq value two ≡ false
differs value one two same apart =
    subst (λ v. text_eq v two ≡ false) (sym (text_eq_sound value one same)) apart

module _ {S : Type 0} (x : Externals) (calls : Calls S) (e : Engine) (plan : Plan) (system : S)
    (off : e.running ≡ false) (held : e.servers ≡ no_servers)
    (made : make_plan x e.cfg ≡ ok plan) where
  start_reaches_mode :
      start x calls e (with_up no_servers system)
      ≡ commit_started x calls plan (start_mode x calls e.cfg plan (with_up no_servers system)) e
  unfolding start start_checked
  start_reaches_mode =
      ap (λ on. start_if x calls on e (with_up no_servers system)) off ∙ rw (made, start_checked)

  module _ (mode : text_eq e.cfg.mode mode_system ≡ true)
      (listens : calls.proxy_listens ≡ true) where
    pub start_mode_system :
        start_mode x calls e.cfg plan (with_up no_servers system)
        ≡ change_proxy x calls e.cfg proxy_only [] (with_up proxy_only system)
    unfolding start_mode start_proxy_modes text_eq change_proxy
    start_mode_system =
        let not_hosts : text_eq e.cfg.mode mode_hosts ≡ false =
          differs e.cfg.mode mode_system mode_hosts mode refl in
        let not_dns : text_eq e.cfg.mode mode_dns ≡ false =
          differs e.cfg.mode mode_system mode_dns mode refl in
        let not_pac : text_eq e.cfg.mode mode_pac ≡ false =
          differs e.cfg.mode mode_system mode_pac mode refl in
        rw (not_hosts, not_dns, start_mode) (rw (listens, not_pac, mode, start_proxy_modes))

    change_proxy_failed :
        (cause : ProxyError) (changed : S)
        → calls.apply_system_proxy (proxy_config x calls e.cfg []) system ≡ (err cause, changed)
        → change_proxy x calls e.cfg proxy_only [] (with_up proxy_only system)
          ≡ (err (system_proxy_not_applied cause), with_up no_servers changed)
    unfolding change_proxy
    change_proxy_failed cause changed failed =
        ap (proxy_changed x calls proxy_only [] (with_up proxy_only system)) failed

    pub change_proxy_done :
        (changed : S)
        → calls.apply_system_proxy (proxy_config x calls e.cfg []) system ≡ (ok tt, changed)
        → change_proxy x calls e.cfg proxy_only [] (with_up proxy_only system)
          ≡ (ok (proxy_parts proxy_only []), with_up proxy_only changed)
    unfolding change_proxy
    change_proxy_done changed applied =
        ap (proxy_changed x calls proxy_only [] (with_up proxy_only system)) applied

    pub start_system_mode :
        (changed : S)
        → calls.apply_system_proxy (proxy_config x calls e.cfg []) system ≡ (ok tt, changed)
        → start x calls e (with_up no_servers system)
          ≡ (none, commit x calls plan (proxy_parts proxy_only []) e, with_up proxy_only changed)
    unfolding commit_started
    start_system_mode changed applied =
        start_reaches_mode
        ∙ ap (λ r. commit_started x calls plan r e)
            (start_mode_system ∙ change_proxy_done changed applied)

    -- Where setting the system proxy fails after it has changed the system's settings, Start in
    -- system mode reports the error and stops the proxy, and leaves the settings as they were
    -- changed; a Stop behind it reports no error and leaves them, too.
    pub failed_system_proxy_left :
        (cause : ProxyError) (changed : S)
        → calls.apply_system_proxy (proxy_config x calls e.cfg []) system ≡ (err cause, changed)
        → (start x calls e (with_up no_servers system)
            ≡ (some (system_proxy_not_applied cause), e, with_up no_servers changed))
          × (stop calls e (with_up no_servers changed)
              ≡ (none, reset e, with_up no_servers changed))
    unfolding commit_started
    failed_system_proxy_left cause changed failed = (
      start_reaches_mode
          ∙ ap (λ r. commit_started x calls plan r e)
              (start_mode_system ∙ change_proxy_failed cause changed failed),
      stop_idle x calls e (with_up no_servers changed) held,
    )

module _ {S : Type 0} (x : Externals) (calls : Calls S) (e : Engine) (w : World S)
    (mode : text_eq e.cfg.mode mode_system ≡ true) (held : e.servers ≡ proxy_only) where
  -- Stop in system mode asks for the proxy settings back, and for nothing else.
  restore_system_mode :
      (back : S)
      → calls.restore_system_proxy e.cfg.runtime.rollback_path w.system ≡ (was_restored, back)
      → restore_system calls e.cfg w.system ≡ (none, back)
  unfolding restore_system text_eq
  restore_system_mode back restored =
      let not_hosts : text_eq e.cfg.mode mode_hosts ≡ false =
        differs e.cfg.mode mode_system mode_hosts mode refl in
      let not_dns : text_eq e.cfg.mode mode_dns ≡ false =
        differs e.cfg.mode mode_system mode_dns mode refl in
      let not_pac : text_eq e.cfg.mode mode_pac ≡ false =
        differs e.cfg.mode mode_system mode_pac mode refl in
      rw (not_hosts, not_dns, not_pac, mode, restored)

  proxy_stops_quietly : calls.proxy_stops ≡ true → stop_servers calls proxy_only none ≡ none
  unfolding stop_servers
  proxy_stops_quietly stops = ap (λ b. note_stopped true b proxy_not_stopped none) stops

  pub stop_system_mode :
      (back : S)
      → calls.proxy_stops ≡ true
      → calls.restore_system_proxy e.cfg.runtime.rollback_path w.system ≡ (was_restored, back)
      → ((stop calls e w).0 ≡ none) × ((stop calls e w).2.system ≡ back)
  stop_system_mode back stops restored =
      let found =
        stop_held x calls e w
          (subst (λ s. (s.proxy || s.reverse || s.dns) ≡ true) (sym held) refl) in
      let asked = restore_system_mode back restored in
      let quiet : stop_servers calls e.servers none ≡ none =
        subst (λ s. stop_servers calls s none ≡ none) (sym held) (proxy_stops_quietly stops) in
      (
        ap (λ r. r.0) found ∙ ap (λ r. stop_servers calls e.servers r.0) asked ∙ quiet,
        ap (λ r. r.2.system) found ∙ ap (λ r. r.1) asked,
      )
