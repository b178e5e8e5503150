-- ===== src/Config/Legacy.antt =====
-- rejectLegacyConfigKeys, findLegacyConfigKey and LoadFile of internal/config/config.go. Reading the
-- file, and decoding its YAML text, are what the parameters report.
use siteboost_core.Common.{
  if◌then◌else◌, is_some, is_empty, Result, ok, err, ◌>>=◌, ◌>>◌, of_option, map_error, ◌≡◌, refl,
  sym, subst, ◌↔◌, ◌⊎◌, inl, inr, true, Option, none, some, List, [], ◌∷◌, ◌++◌, append_assoc,
}
use siteboost_core.Text.{Text, text, text_eq, trim_space}
use siteboost_core.Text.Joining.{join_texts}
use siteboost_core.External.{Externals}
use siteboost_core.Config.Types.{Config, ConfigError}
use siteboost_core.Config.Defaults.{DefaultPaths, default_config}
use siteboost_core.Config.Validating.{validate}

-- yaml.Node, as far as the search looks at it: a mapping, or another node with its value.
mutual
  pub data YamlNode : Type 0 where
    mapping : YamlEntries → YamlNode
    scalar : Text → YamlNode

  -- The keys and values of a mapping in turn.
  pub data YamlEntries : Type 0 where
    no_entries : YamlEntries
    entry : YamlNode → YamlNode → YamlEntries → YamlEntries

abbrev pub value_of : YamlNode → Text
value_of (mapping _) = []
value_of (scalar value) = value

-- The keys that were removed, each with a message of its own.
pub data LegacyKey : Type 0 where
  non_steam_behavior enable_default_steam_rules enable_default_steam_profiles : LegacyKey

unfoldable pub legacy : Text → Option LegacyKey
legacy path =
    if text_eq path (text "proxy.non_steam_behavior")
    then some non_steam_behavior
    else if text_eq path (text "rules.enable_default_steam_rules")
    then some enable_default_steam_rules
    else if text_eq path (text "upstream.enable_default_steam_profiles")
    then some enable_default_steam_profiles
    else none

abbrev pub path_text : List Text → Text
path_text path = join_texts (text ".") path

abbrev pub or_else : {A : Type 0} → Option A → Option A → Option A
or_else none later = later
or_else (some a) later = some a

unfoldable mutual
  pub find_legacy_config_key : YamlNode → List Text → Option LegacyKey
  find_legacy_config_key (scalar _) path = none
  find_legacy_config_key (mapping entries) path = find_in_entries entries path

  pub find_in_entries : YamlEntries → List Text → Option LegacyKey
  find_in_entries no_entries path = none
  find_in_entries (entry key value entries) path =
      let next = path ++ trim_space (value_of key) ∷ [] in
      or_else (legacy (path_text next))
        (or_else (find_legacy_config_key value next) (find_in_entries entries path))

-- `none` where the text is no YAML.
unfoldable pub reject_legacy_config_keys : Option YamlNode → Result LegacyKey (Unit {0})
reject_legacy_config_keys none = ok tt
reject_legacy_config_keys (some node) = elim (find_legacy_config_key node []) [
  | none ↦ ok tt
  | some key ↦ err key
]

pub data LoadError : Type 0 where
  read_failed decode_failed : LoadError
  legacy_key : LegacyKey → LoadError
  refused : ConfigError → LoadError

-- What a configuration file holds: its tree, and the configuration that it makes of the defaults.
pub record ConfigFile : Type 0 where
  pub tree : Option YamlNode
  pub decode : Config → Option Config

unfoldable pub load_decoded : Externals → Config → ConfigFile → Result LoadError Config
load_decoded x defaults file = do
  map_error legacy_key (reject_legacy_config_keys file.tree)
  decoded ← of_option decode_failed (file.decode defaults)
  map_error refused (validate x decoded)

-- `file` is what is read at the path.
unfoldable pub load_file :
    Externals → DefaultPaths → Text → Option ConfigFile → Result LoadError Config
load_file x paths path file =
    if is_empty (trim_space path)
    then map_error refused (validate x (default_config paths))
    else (do found ← of_option read_failed file; load_decoded x (default_config paths) found)

-- A path of keys that a tree has, each key without the space around it.
mutual
  pub data Occurs : List Text → YamlNode → Type 0 where
    inside :
        {keys : List Text} {entries : YamlEntries}
        → OccursIn keys entries
        → Occurs keys (mapping entries)

  pub data OccursIn : List Text → YamlEntries → Type 0 where
    here :
        {key value : YamlNode} {entries : YamlEntries}
        → OccursIn (trim_space (value_of key) ∷ []) (entry key value entries)
    below :
        {keys : List Text} {key value : YamlNode} {entries : YamlEntries}
        → Occurs keys value
        → OccursIn (trim_space (value_of key) ∷ keys) (entry key value entries)
    later :
        {keys : List Text} {key value : YamlNode} {entries : YamlEntries}
        → OccursIn keys entries
        → OccursIn keys (entry key value entries)

abbrev IsLegacyAt : List Text → List Text → Type 0
IsLegacyAt path keys = is_some (legacy (path_text (path ++ keys))) ≡ true

or_else_left : {A : Type 0} (o p : Option A) → is_some o ≡ true → is_some (or_else o p) ≡ true
or_else_left (some a) p h = refl
or_else_left none p h = cc

or_else_right : {A : Type 0} (o p : Option A) → is_some p ≡ true → is_some (or_else o p) ≡ true
or_else_right (some a) p h = refl
or_else_right none p h = h

or_else_cases :
    {A : Type 0} (o p : Option A)
    → is_some (or_else o p) ≡ true
    → (is_some o ≡ true) ⊎ (is_some p ≡ true)
or_else_cases (some a) p h = inl refl
or_else_cases none p h = inr h

extend :
    (path : List Text) (key : Text) (keys : List Text)
    → (path ++ key ∷ []) ++ keys ≡ path ++ key ∷ keys
extend path key keys = append_assoc path (key ∷ []) keys

mutual
  unfolding find_legacy_config_key

  find-Occurs :
      (node : YamlNode) (path : List Text)
      → is_some (find_legacy_config_key node path) ≡ true
      → (keys : List Text) × Occurs keys node × IsLegacyAt path keys
  find-Occurs (scalar value) path h = cc h
  find-Occurs (mapping entries) path h =
      let (keys, found, old) = find-OccursIn entries path h in (keys, inside found, old)

  find-OccursIn :
      (entries : YamlEntries) (path : List Text)
      → is_some (find_in_entries entries path) ≡ true
      → (keys : List Text) × OccursIn keys entries × IsLegacyAt path keys
  find-OccursIn no_entries path h = cc h
  find-OccursIn (entry key value entries) path h =
      let k = trim_space (value_of key) in
      let next = path ++ k ∷ [] in
      elim (or_else_cases (legacy (path_text next)) _ h) [
        | inl old ↦ (k ∷ [], here, old)
        | inr more ↦ elim (or_else_cases (find_legacy_config_key value next) _ more) [
          | inl deep ↦
              let (keys, found, old) = find-Occurs value next deep in
              (
                k ∷ keys,
                below found,
                subst (λ q. is_some (legacy (path_text q)) ≡ true) (extend path k keys) old,
              )
          | inr rest ↦
              let (keys, found, old) = find-OccursIn entries path rest in (keys, later found, old)
        ]
      ]

mutual
  unfolding find_legacy_config_key

  Occurs-find :
      {keys : List Text} {node : YamlNode} (path : List Text)
      → Occurs keys node
      → IsLegacyAt path keys
      → is_some (find_legacy_config_key node path) ≡ true
  Occurs-find path (inside found) old = OccursIn-find path found old

  OccursIn-find :
      {keys : List Text} {entries : YamlEntries} (path : List Text)
      → OccursIn keys entries
      → IsLegacyAt path keys
      → is_some (find_in_entries entries path) ≡ true
  OccursIn-find path here old = or_else_left (legacy (path_text _)) _ old
  OccursIn-find path (below found) old = or_else_right (legacy (path_text _)) _ (
      or_else_left _ _ (
        Occurs-find _ found
          (subst (λ q. is_some (legacy (path_text q)) ≡ true) (sym (extend path _ _)) old)))
  OccursIn-find path (later found) old =
      or_else_right (legacy (path_text _)) _
        (or_else_right (find_legacy_config_key _ _) _ (OccursIn-find path found old))

-- The search for removed keys finds one exactly if the tree has a path of keys, trimmed and joined by
-- dots, that is the name of one.
pub find_legacy_config_key_iff :
    (node : YamlNode)
    → (is_some (find_legacy_config_key node []) ≡ true)
      ↔ ((keys : List Text) × Occurs keys node × (is_some (legacy (path_text keys)) ≡ true))
find_legacy_config_key_iff node =
    (find-Occurs node [], λ (keys, found, old). Occurs-find [] found old)
