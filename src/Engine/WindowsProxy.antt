-- ===== src/Engine/WindowsProxy.antt =====
-- The engine of internal/engine/engine.go over internal/systemproxy on Windows.
use siteboost_core.Config.Types.{Config as AppConfig}
use siteboost_core.SystemProxy.{Config as SystemProxyConfig}
use siteboost_core.SystemProxy.{World as AnyProxyWorld}
use siteboost_core.SystemProxy.{ProxyError, no_state, WindowsState, apply, restore, validate_config}
use siteboost_core.SystemProxy.Applying.{IsWorking, windows_apply, windows_restore-apply}
use siteboost_core.SystemProxy.Registry.{AllSucceed, IsDword}
use siteboost_core.SystemProxy.Windows.{RegistryCalls, windows_platform}
use siteboost_core.Rollback.{absent, Disk}
use siteboost_core.Engine.Types.{
  no_servers, Restored, was_restored, nothing_to_restore, restore_failed, Calls, Engine,
}
use siteboost_core.Engine.Planning.{Plan, make_plan}
use siteboost_core.Engine.Starting.{proxy_only}
use siteboost_core.Engine.Running.{proxy_parts, Reply, proxy_config, commit, start}
use siteboost_core.Engine.Stopping.{stop}
use siteboost_core.Engine.Modes.{with_up}
use siteboost_core.Engine.Lifecycle.{stop_held}
use siteboost_core.Engine.Undoing.{differs, start_system_mode, stop_system_mode}
use siteboost_core.Engine.Reporting.{fresh}
use siteboost_core.Common.{
  is_some, Result, ok, err, ◌≡◌, refl, sym, ap, subst, true, false, none, [],
}
use siteboost_core.Text.{text_eq}
use siteboost_core.Text.Address.{split_host_port}
use siteboost_core.External.{Externals}
use siteboost_core.Config.Names.{mode_pac, mode_system}
use siteboost_core.Config.Valid.{IsNonblank, IsValid}

abbrev pub ProxyWorld : Type 0
ProxyWorld = AnyProxyWorld WindowsState

abbrev restored_of : Result ProxyError (Unit {0}) → Restored
restored_of (ok _) = was_restored
restored_of (err no_state) = nothing_to_restore
restored_of (err _) = restore_failed

-- The calls with systemproxy.Apply and systemproxy.Restore over the registry.
abbrev pub with_windows_proxy :
    Externals → RegistryCalls → Disk → Calls ProxyWorld → Calls ProxyWorld
with_windows_proxy x c disk calls = record calls {
  apply_system_proxy = λ cfg w. apply x (windows_platform c) disk cfg w;
  restore_system_proxy = λ path w.
      let (reply, back) = restore x (windows_platform c) disk w in (restored_of reply, back);
}

system_config_accepted :
    (x : Externals) (c : SystemProxyConfig)
    → IsNonblank c.rollback_path
    → text_eq c.mode mode_system ≡ true
    → is_some (split_host_port c.proxy_addr) ≡ true
    → validate_config x c ≡ ok tt
unfolding validate_config text_eq
system_config_accepted x c path mode address =
    let not_pac : text_eq c.mode mode_pac ≡ false = differs c.mode mode_system mode_pac mode refl in
    rw (path, not_pac, mode, address)

module _ (x : Externals) (c : RegistryCalls) (disk : Disk) (calls : Calls ProxyWorld)
    (cfg : AppConfig) (plan : Plan) (w : ProxyWorld) (succeed : AllSucceed c)
    (works : IsWorking disk) (valid : IsValid x cfg) (mode : text_eq cfg.mode mode_system ≡ true)
    (made : make_plan x cfg ≡ ok plan) (listens : calls.proxy_listens ≡ true)
    (stops : calls.proxy_stops ≡ true) (address : is_some (split_host_port calls.proxy_addr) ≡ true)
    (dword : IsDword w.system) where
  abbrev windows_calls : Calls ProxyWorld
  windows_calls = with_windows_proxy x c disk calls

  abbrev started : Reply ProxyWorld
  started = start x windows_calls (fresh cfg) (with_up no_servers w)

  abbrev stopped : Reply ProxyWorld
  stopped = stop windows_calls started.1 started.2

  abbrev proxy_cfg : SystemProxyConfig
  proxy_cfg = proxy_config x windows_calls cfg []

  config_accepted : validate_config x proxy_cfg ≡ ok tt
  config_accepted = system_config_accepted x proxy_cfg valid.runtime.rollback_path mode address

  abbrev changed : ProxyWorld
  changed = (apply x (windows_platform c) disk proxy_cfg w).1

  applied : apply x (windows_platform c) disk proxy_cfg w ≡ (ok tt, changed)
  applied =
      ap (λ reply. (reply, changed))
        (windows_apply x c disk proxy_cfg w config_accepted succeed.reads works.write succeed)

  abbrev running : Engine
  running = commit x windows_calls plan (proxy_parts proxy_only []) (fresh cfg)

  abbrev before : ProxyWorld
  before = record { rollback = absent; system = w.system }

  restored :
      windows_calls.restore_system_proxy cfg.runtime.rollback_path changed ≡ (was_restored, before)
  restored =
      ap (λ r. (restored_of r.0, r.1))
        (windows_restore-apply x c c disk disk proxy_cfg w config_accepted succeed.reads works.write
          succeed works.readable works.removable dword)

  -- On Windows, where the rollback file can be written, read and removed, and the calls of the
  -- registry succeed: whatever valid configuration in system mode the engine is started with, once
  -- the plan is made and the proxy listens, Start and then Stop report no error, no server is up
  -- afterwards, and the proxy settings are those from before the start, with no rollback file left;
  -- ProxyEnable was absent or a 32-bit value, the address that the proxy listens on has a host and a
  -- port, and the proxy stops without an error.
  pub windows_stop-start :
      (started.0 ≡ none)
      × (stopped.0 ≡ none)
      × (stopped.2.up ≡ no_servers)
      × (stopped.2.system ≡ record { rollback = absent; system = w.system })
  windows_stop-start =
      let on =
        start_system_mode x windows_calls (fresh cfg) plan w refl refl made mode listens changed
          applied in
      let up = with_up proxy_only changed in
      let (quiet, back) =
        stop_system_mode x windows_calls running up mode refl before stops restored in
      let down = ap (λ r. r.2.up) (stop_held x windows_calls running up refl) in
      subst
        (λ r.
          (r.0 ≡ none)
          × ((stop windows_calls r.1 r.2).0 ≡ none)
          × ((stop windows_calls r.1 r.2).2.up ≡ no_servers)
          × ((stop windows_calls r.1 r.2).2.system ≡ before))
        (sym on) (refl, quiet, down, back)
