-- ===== src/Tests/Proxies.antt =====
-- The theorems on the system proxy at concrete settings.
use siteboost_core.SystemProxy.{
  Config, WindowsState, State, ProxyError, World, validate_config, complete_state, apply_mode,
  prepare, apply, restore,
}
use siteboost_core.SystemProxy.Windows.{
  proxy_enable_value, proxy_server_value, auto_config_value, RegistryCalls, write_values, with_key,
  registry_apply_pac, windows_platform,
}
use siteboost_core.SystemProxy.Registry.{AllSucceed, IsDword}
use siteboost_core.SystemProxy.Applying.{apply_saves_first, windows_restore-apply}
use siteboost_core.Tests.Inputs.{externals, disk, registry}
use siteboost_core.Common.{
  eq_of_some_eq, ok, err, ◌^◌, ◌<◌, ◌≡◌, refl, subst, ◌⊎◌, true, false, none, some, [], arith,
}
use siteboost_core.Text.{text, text_eq, trim_space}
use siteboost_core.Rollback.{absent, stored, write_state}
use siteboost_core.Config.Names.{mode_pac}

abbrev config : Config
config = record {
  mode = mode_pac;
  proxy_addr = text "h:1";
  pac_url = text "http://h/p";
  rollback_path = text "r";
  services = [];
}

abbrev settings : WindowsState
settings = record {
  proxy_enable = some 1;
  proxy_server = some (text "corp:8");
  auto_config_url = none;
}

abbrev world : World WindowsState
world = record { rollback = absent; system = settings }

config_valid : validate_config externals config ≡ ok tt
unfolding validate_config trim_space text_eq
config_valid = refl

settings-IsDword : IsDword settings
settings-IsDword v h = subst (λ n. n < 2 ^ 32) (eq_of_some_eq 1 v h) (omega arith)

registry-AllSucceed : AllSucceed registry
registry-AllSucceed = record { reads = refl; opens = refl; writes = λ _. refl; notifies = refl }

-- The calls behind an Apply that breaks off at ProxyEnable.
abbrev broken : RegistryCalls
broken = record registry {
  writes = λ name. elim name [
    | proxy_enable_value ↦ false
    | proxy_server_value ↦ true
    | auto_config_value ↦ true
  ];
}

broken_apply :
    (apply externals (windows_platform broken) disk config world).1.system
    ≡ record settings { auto_config_url = some (text "http://h/p") }
unfolding apply prepare validate_config trim_space text_eq write_state apply_mode registry_apply_pac
    with_key write_values
broken_apply = refl

windows_restore-apply_example :
    restore externals
      (windows_platform registry)
      disk
      (apply externals (windows_platform broken) disk config world).1
    ≡ (ok tt, record { rollback = absent; system = settings })
windows_restore-apply_example =
    windows_restore-apply externals broken registry disk disk config world config_valid refl refl
      registry-AllSucceed refl refl settings-IsDword

apply_saves_first_example :
    ((e : ProxyError) × ((apply externals (windows_platform broken) disk config world).0 ≡ err e)
      × ((apply externals (windows_platform broken) disk config world).1.system ≡ settings))
    ⊎ ((snapshot : State) × ((windows_platform broken).snapshot config settings ≡ ok snapshot)
        × ((apply externals (windows_platform broken) disk config world).1.rollback
            ≡ stored (complete_state externals (windows_platform broken) disk config snapshot)))
apply_saves_first_example = apply_saves_first externals (windows_platform broken) disk config world
