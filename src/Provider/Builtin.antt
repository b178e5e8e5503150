-- ===== src/Provider/Builtin.antt =====
-- internal/provider/steam.go and github.go: the built-in providers, with the types of provider.go and
-- the probe targets of internal/upstream/probe.go.
use siteboost_core.Common.{Bool, true, false, List, [], ◌∷◌}
use siteboost_core.Text.{Text, text}
use siteboost_core.Rules.{RuleGroup}
use siteboost_core.Upstream.Profile.{Profile}

pub record ProbeTarget : Type 0 where
  pub provider_id : Text
  pub host : Text
  pub port : Text
  pub path : Text

pub record Provider : Type 0 where
  pub id : Text
  pub name : Text
  pub status : Text
  pub rule_set_name : Text
  pub rule_set_version : Text
  pub rule_set_updated_at : Text
  pub rules : List RuleGroup
  pub outbound_profiles : List Profile
  pub probe_targets : List ProbeTarget

abbrev pub group_of : Text → List Text → RuleGroup
group_of name domains = record { name = name; domains = domains }

abbrev pub probe_of : Text → Text → ProbeTarget
probe_of host path = record { provider_id = []; host = host; port = text "443"; path = path }

abbrev pub id_steam : Text
id_steam = text "steam"

abbrev pub id_github : Text
id_github = text "github"

-- A profile of domains with a host to forward to and the name to ask it for.
abbrev pub forward_to : List Text → Text → Text → Bool → Profile
forward_to domains forward server ignore = record {
  match_domains = domains;
  candidate_ips = [];
  forward_host = forward;
  tls_server_name = server;
  ignore_tls_name_mismatch = ignore;
}

abbrev pub steam_rules : List RuleGroup
steam_rules =
    group_of (text "steam/store") (
      text "store.steampowered.com"
      ∷ text "checkout.steampowered.com"
      ∷ text "help.steampowered.com"
      ∷ text "login.steampowered.com"
      ∷ text "media.steampowered.com"
      ∷ [])
    ∷ group_of (text "steam/community")
        (text "steamcommunity.com" ∷ text "*.steamcommunity.com" ∷ [])
    ∷ group_of (text "steam/api") (text "api.steampowered.com" ∷ text "partner.steam-api.com" ∷ [])
    ∷ group_of (text "steam/chat") (text "steam-chat.com" ∷ text "*.steam-chat.com" ∷ [])
    ∷ group_of (text "steam/static") (
        text "community.steamstatic.com"
        ∷ text "steamstatic.com"
        ∷ text "*.steamstatic.com"
        ∷ text "akamai.steamstatic.com"
        ∷ text "*.akamai.steamstatic.com"
        ∷ [])
    ∷ group_of (text "steam/cdn") (text "steamcdn-a.akamaihd.net" ∷ [])
    ∷ []

abbrev pub steam_profiles : List Profile
steam_profiles =
    forward_to (text "steamcommunity.com" ∷ text "*.steamcommunity.com" ∷ [])
      (text "steamcommunity-a.akamaihd.net") (text "steamcommunity-a.akamaihd.net") false
    ∷ forward_to
        (text "store.steampowered.com"
          ∷ text "checkout.steampowered.com"
          ∷ text "help.steampowered.com"
          ∷ text "login.steampowered.com"
          ∷ text "media.steampowered.com"
          ∷ [])
        (text "cdn-a.akamaihd.net") (text "cdn-a.akamaihd.net") false
    ∷ forward_to (text "api.steampowered.com" ∷ []) (text "steamstore.rmbgame.net") [] true
    ∷ forward_to (text "community.steamstatic.com" ∷ []) (text "community.steamstatic.com")
        (text "community.steamstatic.com") false
    ∷ forward_to (text "steamcdn-a.akamaihd.net" ∷ []) (text "steamcdn-a.akamaihd.net")
        (text "steamcdn-a.akamaihd.net") false
    ∷ []

abbrev pub steam_probes : List ProbeTarget
steam_probes =
    probe_of (text "steamcommunity.com") (text "/")
    ∷ probe_of (text "store.steampowered.com") (text "/")
    ∷ probe_of (text "api.steampowered.com")
        (text "/ISteamWebAPIUtil/GetSupportedAPIList/v1/?format=json")
    ∷ probe_of (text "help.steampowered.com") (text "/")
    ∷ probe_of (text "media.steampowered.com") (text "/")
    ∷ probe_of (text "community.steamstatic.com") (text "/")
    ∷ probe_of (text "steamcdn-a.akamaihd.net") (text "/")
    ∷ []

abbrev pub steam : Provider
steam = record {
  id = id_steam;
  name = text "Steam";
  status = text "stable";
  rule_set_name = text "steam-web";
  rule_set_version = text "2026.06.23";
  rule_set_updated_at = text "2026-06-23";
  rules = steam_rules;
  outbound_profiles = steam_profiles;
  probe_targets = steam_probes;
}

abbrev pub github_rules : List RuleGroup
github_rules =
    group_of (text "github/web")
      (text "github.com" ∷ text "gist.github.com" ∷ text "*.github.com" ∷ [])
    ∷ group_of (text "github/api") (text "api.github.com" ∷ [])
    ∷ group_of (text "github/raw")
        (text "raw.githubusercontent.com" ∷ text "*.githubusercontent.com" ∷ [])
    ∷ group_of (text "github/assets") (
        text "github.githubassets.com"
        ∷ text "assets-cdn.github.com"
        ∷ text "objects.githubusercontent.com"
        ∷ text "codeload.github.com"
        ∷ text "avatars.githubusercontent.com"
        ∷ text "user-images.githubusercontent.com"
        ∷ [])
    ∷ []

abbrev pub github_probes : List ProbeTarget
github_probes =
    probe_of (text "github.com") (text "/")
    ∷ probe_of (text "api.github.com") (text "/")
    ∷ probe_of (text "raw.githubusercontent.com") (text "/")
    ∷ []

abbrev pub github : Provider
github = record {
  id = id_github;
  name = text "GitHub";
  status = text "experimental";
  rule_set_name = text "github-web";
  rule_set_version = text "2026.06.23";
  rule_set_updated_at = text "2026-06-23";
  rules = github_rules;
  outbound_profiles = [];
  probe_targets = github_probes;
}
