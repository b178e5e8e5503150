-- ===== src/Config.antt =====
-- internal/config/config.go: the configuration, its defaults, and its validation, which normalises it
-- on the way. Reading the file and YAML are not modelled; an error keeps its cause.
pub mod Names
pub mod Types
pub mod Normalizing
pub mod Profiles
pub mod Intercept
pub mod Enhancement
pub mod Validating
pub mod Defaults
pub mod Legacy
pub mod Valid
pub mod Accepting
pub mod AcceptingProfiles
pub mod ValidEnhancement
pub mod AcceptingDns
pub mod Accepted
pub mod AcceptedEnhancement
