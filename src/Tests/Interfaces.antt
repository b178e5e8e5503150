-- ===== src/Tests/Interfaces.antt =====
-- The theorems on the system DNS at a concrete platform.
use siteboost_core.External.{to4, is_loopback}
use siteboost_core.Tests.Inputs.{externals, disk}
use siteboost_core.SystemDns.{
  Config, InterfaceState, State, platform_failed, Platform, World, clean_from, clean_strings,
  normalize_config, is_loopback_server, validate_config, apply, restore,
}
use siteboost_core.SystemDns.PowerShell.{double_quotes, ps_quote}
use siteboost_core.SystemDns.Quoting.{
  read_literal, read_literal-ps_quote, read_literal-ps_quote_broken,
}
use siteboost_core.SystemDns.Applying.{restored_with, restore-apply_system_dns}
use siteboost_core.Rollback.{absent}
use siteboost_core.Text.{text, text_eq, trim_space, to_lower}
use siteboost_core.Common.{ok, err, ◌≡◌, refl, some, List, [], ◌∷◌, ◌++◌}

abbrev snapshot_of : List InterfaceState → State
snapshot_of interfaces = record {
  kind = [];
  version = 0;
  os = [];
  mode = [];
  interfaces = interfaces;
  server_ips = [];
}

-- A system whose state is its interfaces, which Apply loses.
abbrev platform : Platform (List InterfaceState)
platform = record {
  name = text "windows";
  snapshot = λ cfg system. ok (snapshot_of system);
  apply = λ cfg state system. (err platform_failed, []);
  restore = λ state system. (ok tt, state.interfaces);
}

abbrev interface : InterfaceState
interface = record {
  interface_alias = text "Ethernet";
  interface_index = 3;
  interface_guid = [];
  address_family = text "IPv4";
  source = text "dhcp";
  servers = [];
  static_servers = [];
  static_name_server = [];
}

abbrev config : Config
config = record {
  rollback_path = text "r";
  interfaces = text "Ethernet" ∷ text "ethernet" ∷ [];
  server_ips = text "127.0.0.1" ∷ [];
}

abbrev world : World (List InterfaceState)
world = record { rollback = absent; system = interface ∷ [] }

normalized_valid : validate_config externals (normalize_config externals config) ≡ ok tt
unfolding validate_config trim_space normalize_config clean_strings clean_from text_eq to_lower
    is_loopback_server is_loopback to4
normalized_valid = refl

normalized : normalize_config externals config ≡ record {
  rollback_path = text "r";
  interfaces = text "Ethernet" ∷ [];
  server_ips = text "127.0.0.1" ∷ [];
}
unfolding normalize_config clean_strings clean_from trim_space text_eq to_lower
normalized = refl

restore-apply_system_dns_example :
    (state : State) × (state.interfaces ≡ interface ∷ [])
    × (state.server_ips ≡ (normalize_config externals config).server_ips)
    × (state.kind ≡ text "system_dns")
    × (state.mode ≡ text "dns")
    × (state.os ≡ text "windows")
    × (restore externals platform disk (apply externals platform disk config world).1
        ≡ restored_with externals platform disk state (
            platform.restore state
              (platform.apply (normalize_config externals config) state world.system).1))
restore-apply_system_dns_example =
    restore-apply_system_dns externals platform disk disk config world (snapshot_of world.system)
      refl refl refl normalized_valid refl

read_literal-ps_quote_example :
    read_literal (ps_quote (text "a'; b") ++ text ", 'c'") ≡ some (text "a'; b", text ", 'c'")
read_literal-ps_quote_example = read_literal-ps_quote (text "a'; b") (text ", 'c'") refl refl

read_literal-ps_quote_broken_example :
    read_literal (ps_quote (text "a" ++ 0x2019 ∷ text "; b"))
    ≡ some (text "a", double_quotes (text "; b") ++ 39 ∷ [])
unfolding double_quotes
read_literal-ps_quote_broken_example =
    read_literal-ps_quote_broken (text "a") (text "; b") 0x2019 refl refl refl
