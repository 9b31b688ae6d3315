-- ===== src/Config/Resolved/Sound.antt =====
-- deployment-core/pkg/deploycore/config/config.go: what a configuration has that
-- validateResolvedProjectConfig accepts.
use devopsellence.Base.{
  Bool, true, false, not, ◌&&◌, ◌≡◌, refl, Option, none, some, List, [], ◌∷◌, map, All, Text, ◌==◌,
  codes, trim, is_empty, contains, is_distinct, has_prefix, is_positive, ℤ, keys, ok, for_each,
  for_each-All, reject_if-ok, bind-ok, arith,
}
use devopsellence.Base.TextLaws.{eq_refl, eq_iff}
use devopsellence.Base.Filtering.{All-map}
use devopsellence.Config.Types.{Volume, SecretRef, ServicePort, ServiceConfig, HttpHealthcheck, web}
use devopsellence.Config.Defaults.{http_port, inferred_service_kind}
use devopsellence.Config.Resolved.{
  command_blank, args_blank, env_key_blank, secret_name_required, volume_source_required,
  volume_target_required, port_name_required, port_not_positive, port_duplicate, http_port_required,
  healthcheck_path_required, require, check_secret_ref, check_volume, check_ports,
  check_healthcheck, check_web, validate_service,
}

-- A web service has an HTTP port, and a health check on a path and a port.
abbrev pub has_health_port : Option HttpHealthcheck → Bool
has_health_port none = false
has_health_port (some h) = not (is_empty (trim h.path)) && is_positive h.port

pub record IsSoundService (name : Text) (s : ServiceConfig) : Type 0 where
  pub ports_numbered : All (λ p. is_positive p.port ≡ true) s.ports
  pub ports_distinct : is_distinct (map (λ p. p.name) s.ports) ≡ true
  pub volumes_absolute : All (λ v. has_prefix v.target (codes "/") ≡ true) s.volumes
  pub secrets_named : All (λ r. is_empty (trim r.secret) ≡ false) s.secret_refs
  pub web_serves :
      (inferred_service_kind name s == web) ≡ true
      → (is_positive (http_port s.ports (ℤ.pos 0)) ≡ true) × (has_health_port s.healthcheck ≡ true)

ports_sound :
    (service : Text) (seen : List Text) (ports : List ServicePort)
    → check_ports service seen ports ≡ ok tt
    → All (λ p. is_positive p.port ≡ true) ports
      × ((is_distinct (map (λ p. p.name) ports) ≡ true)
          × ((n : Text) → contains (map (λ p. p.name) ports) n ≡ true → contains seen n ≡ false))
unfolding check_ports is_distinct contains
ports_sound service seen [] h = (tt, (refl, λ n k. absurd (ground arith)))
ports_sound service seen (p ∷ ps) h =
    let h1 = bind-ok (require (port_name_required service) p.name) _ tt h in
    let h2 =
      reject_if-ok (not (is_positive p.port)) (port_not_positive service p.name) _ tt h1.1.1 in
    let h3 = reject_if-ok (contains seen p.name) (port_duplicate service p.name) _ tt h2.1 in
    let later = ports_sound service (p.name ∷ seen) ps h3.1 in
    (
      (ground (arith, h2.0), later.0),
      (
        ground (arith, later.1.0, later.1.1 p.name, eq_refl p.name),
        λ n k. ground (arith, h3.0, later.1.1 n, eq_iff p.name n),
      ),
    )

volume-absolute :
    (service : Text) (v : Volume)
    → check_volume service v ≡ ok tt
    → has_prefix v.target (codes "/") ≡ true
unfolding check_volume
volume-absolute service v h =
    let h1 = bind-ok (require (volume_source_required service) v.source) _ tt h in
    let h2 = bind-ok (require (volume_target_required service) v.target) _ tt h1.1.1 in
    ground (arith, h2.1.1)

secret-named :
    (service : Text) (r : SecretRef)
    → check_secret_ref service r ≡ ok tt
    → is_empty (trim r.secret) ≡ false
unfolding check_secret_ref require
secret-named service r h =
    let h1 = bind-ok (require (secret_name_required service) r.name) _ tt h in
    ground (arith, h1.1.1)

health :
    (name : Text) (o : Option HttpHealthcheck)
    → check_healthcheck name o ≡ ok tt
    → has_health_port o ≡ true
unfolding check_healthcheck require
health name none k = absurd (ground arith)
health name (some c) k =
    let k1 = bind-ok (require (healthcheck_path_required name) c.path) _ tt k in
    let k2 = k1.1.0 in ground (arith, k2, k1.1.1)

web_sound :
    (name : Text) (s : ServiceConfig)
    → check_web name s ≡ ok tt
    → (is_positive (http_port s.ports (ℤ.pos 0)) ≡ true) × (has_health_port s.healthcheck ≡ true)
unfolding check_web
web_sound name s h =
    let h1 =
      reject_if-ok (not (is_positive (http_port s.ports (ℤ.pos 0)))) (http_port_required name) _ tt
        h in
    (ground (arith, h1.0), health name s.healthcheck h1.1)

pub validate_service-IsSoundService :
    (name : Text) (s : ServiceConfig) → validate_service name s ≡ ok tt → IsSoundService name s
unfolding validate_service
validate_service-IsSoundService name s h =
    let h1 = bind-ok (for_each (require (command_blank name)) s.command) _ tt h in
    let h2 = bind-ok (for_each (require (args_blank name)) s.args) _ tt h1.1.1 in
    let h3 = bind-ok (for_each (require (env_key_blank name)) (keys s.env)) _ tt h2.1.1 in
    let h4 = bind-ok (for_each (check_secret_ref name) s.secret_refs) _ tt h3.1.1 in
    let h5 = bind-ok (for_each (check_volume name) s.volumes) _ tt h4.1.1 in
    let h6 = bind-ok (check_ports name [] s.ports) _ tt h5.1.1 in
    let ports = ports_sound name [] s.ports h6.1.0 in
    record {
      ports_numbered = ports.0;
      ports_distinct = ports.1.0;
      volumes_absolute =
          All-map (λ v. check_volume name v ≡ ok tt) (λ v. has_prefix v.target (codes "/") ≡ true)
            (volume-absolute name) s.volumes (for_each-All (check_volume name) s.volumes h5.1.0);
      secrets_named =
          All-map (λ r. check_secret_ref name r ≡ ok tt) (λ r. is_empty (trim r.secret) ≡ false)
            (secret-named name) s.secret_refs
            (for_each-All (check_secret_ref name) s.secret_refs h4.1.0);
      web_serves = λ k. web_sound name s (rw k at h6.1.1);
    }
