-- ===== src/SystemProxy/Registry.antt =====
-- Restore of registry_windows.go where its calls succeed.
use siteboost_core.SystemProxy.{WindowsState}
use siteboost_core.SystemProxy.Windows.{
  ValueName, proxy_enable_value, proxy_server_value, auto_config_value, RegistryCalls,
  restore_dword, write_values, with_key, registry_restore,
}
use siteboost_core.Common.{ok, ℕ, ◌^◌, ◌<◌, ◌≡◌, refl, ap, true, Option, none, some, arith}

-- Every call of the registry and the notifications succeed.
pub record AllSucceed (c : RegistryCalls) : Type 0 where
  pub reads : c.reads ≡ true
  pub opens : c.opens ≡ true
  pub writes : (name : ValueName) → c.writes name ≡ true
  pub notifies : c.notifies ≡ true

-- A DWORD value of the registry.
abbrev pub IsDword : WindowsState → Type 0
IsDword key = (v : ℕ) → key.proxy_enable ≡ some v → v < 2 ^ 32

restore_dword_same : (v : Option ℕ) → ((n : ℕ) → v ≡ some n → n < 2 ^ 32) → restore_dword v ≡ v
unfolding restore_dword
restore_dword_same none h = refl
restore_dword_same (some n) h = let bound = h n refl in ap some (omega arith)

pub registry_restore_same :
    (c : RegistryCalls) (saved key : WindowsState)
    → AllSucceed c
    → IsDword saved
    → registry_restore c saved key ≡ (ok tt, saved)
unfolding registry_restore with_key write_values
registry_restore_same c saved key h dword = rw (
  h.opens,
  h.writes proxy_enable_value,
  h.writes proxy_server_value,
  h.writes auto_config_value,
  h.notifies,
  restore_dword_same saved.proxy_enable dword,
)
