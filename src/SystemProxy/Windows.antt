-- ===== src/SystemProxy/Windows.antt =====
-- internal/systemproxy/windows_platform.go and registry_windows.go: the platform over the values of
-- the Internet Settings key. Whether each call of the registry and of WinINet succeeds is a parameter.
use siteboost_core.SystemProxy.{WindowsState, State, ProxyError, platform_failed, Platform}
use siteboost_core.Common.{
  if◌then◌else◌, Result, ok, err, ℕ, ◌%◌, ◌^◌, Bool, Option, none, some, List, [], ◌∷◌, ◌++◌,
}
use siteboost_core.Text.{Text, text}

pub data ValueName : Type 0 where
  proxy_enable_value proxy_server_value auto_config_value : ValueName

-- Whether the calls succeed: opening the key and reading its values, opening it for writing, setting
-- or deleting each value, and the notifications.
pub record RegistryCalls : Type 0 where
  pub reads : Bool
  pub opens : Bool
  pub writes : ValueName → Bool
  pub notifies : Bool

-- restoreDWORDValue writes the value as a uint32.
unfoldable pub restore_dword : Option ℕ → Option ℕ
restore_dword none = none
restore_dword (some value) = some (value % 2 ^ 32)

abbrev pub windows_snapshot : WindowsState → State
windows_snapshot key = record {
  version = 0;
  os = [];
  mode = [];
  proxy_addr = [];
  pac_url = [];
  services = [];
  windows = some key;
  macos = none;
}

module _ (c : RegistryCalls) where
  -- The writes in order, up to the first that fails, and then the notifications.
  unfoldable pub write_values :
      List (ValueName × (WindowsState → WindowsState))
      → WindowsState
      → Result ProxyError (Unit {0}) × WindowsState
  write_values [] key = (if c.notifies then ok tt else err platform_failed, key)
  write_values ((name, change) ∷ rest) key =
      let behind = write_values rest (change key) in
      if c.writes name then behind else (err platform_failed, key)

  unfoldable pub with_key :
      List (ValueName × (WindowsState → WindowsState))
      → WindowsState
      → Result ProxyError (Unit {0}) × WindowsState
  with_key values key = if c.opens then write_values values key else (err platform_failed, key)

  -- ApplyPAC of the backend.
  unfoldable pub registry_apply_pac :
      Text → WindowsState → Result ProxyError (Unit {0}) × WindowsState
  registry_apply_pac pac_url key =
      with_key
        ((auto_config_value, λ k. record k { auto_config_url = some pac_url })
          ∷ (proxy_enable_value, λ k. record k { proxy_enable = some 0 })
          ∷ [])
        key

  -- ApplySystem of the backend.
  unfoldable pub registry_apply_system :
      Text → WindowsState → Result ProxyError (Unit {0}) × WindowsState
  registry_apply_system proxy_addr key =
      let server = text "http=" ++ (proxy_addr ++ (text ";https=" ++ proxy_addr)) in
      with_key
        ((proxy_server_value, λ k. record k { proxy_server = some server })
          ∷ (proxy_enable_value, λ k. record k { proxy_enable = some 1 })
          ∷ (auto_config_value, λ k. record k { auto_config_url = none })
          ∷ [])
        key

  -- Restore of the backend.
  unfoldable pub registry_restore :
      WindowsState → WindowsState → Result ProxyError (Unit {0}) × WindowsState
  registry_restore saved key =
      with_key
        ((proxy_enable_value, λ k. record k { proxy_enable = restore_dword saved.proxy_enable })
          ∷ (proxy_server_value, λ k. record k { proxy_server = saved.proxy_server })
          ∷ (auto_config_value, λ k. record k { auto_config_url = saved.auto_config_url })
          ∷ [])
        key

  abbrev windows_restore : State → WindowsState → Result ProxyError (Unit {0}) × WindowsState
  windows_restore state key = elim state.windows [
    | none ↦ (err platform_failed, key)
    | some saved ↦ registry_restore saved key
  ]

  abbrev pub windows_platform : Platform WindowsState
  windows_platform = record {
    name = text "windows";
    snapshot = λ cfg key. if c.reads then ok (windows_snapshot key) else err platform_failed;
    apply_pac = λ cfg key. registry_apply_pac cfg.pac_url key;
    apply_system = λ cfg key. registry_apply_system cfg.proxy_addr key;
    restore = windows_restore;
  }
