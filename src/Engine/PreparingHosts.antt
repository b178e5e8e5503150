-- ===== src/Engine/PreparingHosts.antt =====
-- prepareHostsForStart of internal/engine/engine.go and its helpers: the certificate is trusted and
-- the hosts file written, by this process or by the helper with more rights.
use siteboost_core.Hosts.Platform.{Config as HostsConfig}
use siteboost_core.Engine.Types.{
  TrustResult, PrepareHostsResult, PrepareError, root_ca_failed, helper_failed, cert_check_failed,
  cert_not_installed, cert_install_failed, hosts_preflight_failed, hosts_apply_failed, retry_failed,
  Calls,
}
use siteboost_core.Common.{
  length, Result, ok, err, require, ◌>>◌, of_option, map_error, Bool, true, false, ◌&&◌, none, some,
}
use siteboost_core.Text.{Text}

module _ {S : Type 0} (calls : Calls S) where
  abbrev pub Prepared : Type 0
  Prepared = Result PrepareError PrepareHostsResult × S

  unfoldable pub prepare_hosts_with_helper : HostsConfig → Bool → S → Prepared
  prepare_hosts_with_helper cfg auto_install system = elim calls.ensure_root_ca [
    | false ↦ (err root_ca_failed, system)
    | true ↦
        let (prepare, changed) = calls.prepare_hosts_elevated cfg auto_install system in
        (of_option helper_failed prepare, changed)
  ]

  -- The last part of prepareHostsDirect.
  unfoldable pub write_hosts : HostsConfig → TrustResult → S → Prepared
  write_hosts cfg trust system = elim (calls.preflight_hosts cfg system) [
    | false ↦ (err hosts_preflight_failed, system)
    | true ↦
        let (written, changed) = calls.apply_hosts cfg system in
        (
          (do
            require written hosts_apply_failed
            ok (record { cert = trust; cert_trusted = true; entries = length cfg.entries })),
          changed,
        )
  ]

  abbrev pub found_trust : Text → TrustResult
  found_trust scope = record {
    store_scope = scope;
    already_trusted = true;
    changed = false;
    via_helper = false;
  }

  unfoldable pub install_and_write : HostsConfig → S → Prepared
  install_and_write cfg system =
      let (trust, trusted) = calls.ensure_cert_trusted system in
      elim trust [ none ↦ (err cert_install_failed, trusted) | some t ↦ write_hosts cfg t trusted ]

  -- `scope` is the store of the certificates.
  unfoldable pub prepare_hosts_direct : Text → HostsConfig → Bool → S → Prepared
  prepare_hosts_direct scope cfg auto_install system = elim calls.is_cert_installed [
    | none ↦ (err cert_check_failed, system)
    | some true ↦ write_hosts cfg (found_trust scope) system
    | some false ↦ elim auto_install [
      | false ↦ (err cert_not_installed, system)
      | true ↦ install_and_write cfg system
    ]
  ]

  unfoldable pub should_retry_hosts_with_helper : PrepareError → Bool
  should_retry_hosts_with_helper cause = calls.on_windows && calls.is_permission cause

  unfoldable pub retry_with_helper : PrepareError → HostsConfig → Bool → S → Prepared
  retry_with_helper cause cfg auto_install system =
      let (prepare, changed) = prepare_hosts_with_helper cfg auto_install system in
      (map_error (retry_failed cause) prepare, changed)

  unfoldable pub prepare_hosts_for_start : Text → HostsConfig → Bool → S → Prepared
  prepare_hosts_for_start scope cfg auto_install system = elim calls.should_use_helper [
    | true ↦ prepare_hosts_with_helper cfg auto_install system
    | false ↦
        let (prepare, changed) = prepare_hosts_direct scope cfg auto_install system in
        elim prepare [
          | ok result ↦ (ok result, changed)
          | err cause ↦ elim (should_retry_hosts_with_helper cause) [
            | false ↦ (err cause, changed)
            | true ↦ retry_with_helper cause cfg auto_install changed
          ]
        ]
  ]
