-- ===== src/Config/Resolved/Rules.antt =====
-- deployment-core/pkg/deploycore/config/config.go: what the tasks and the ingress have in a
-- configuration that validateResolvedProjectConfig accepts.
use devopsellence.Base.{
  ℕ, suc, Bool, true, false, not, ◌&&◌, ◌≡◌, refl, subst, none, some, Option-cases, List, [], ◌∷◌,
  map, All, Text, codes, trim, is_empty, contains, is_distinct, has_prefix, Dict, keys, lookup,
  has_key, ok, for_each, for_each-All, reject_if-ok, bind-ok, arith, contains-all, inl, inr,
  has_key_of_lookup, has_key-keys,
}
use devopsellence.Base.TextLaws.{eq_refl, eq_iff}
use devopsellence.Base.SortLaws.{contains-sort}
use devopsellence.Plan.Schedule.{or_default}
use devopsellence.Config.Types.{
  ServiceConfig, TaskConfig, IngressConfig, IngressRuleConfig, ProjectConfig,
}
use devopsellence.Config.Defaults.{normalized_ingress_host, has_port_named, service_names}
use devopsellence.Config.Resolved.{
  services_required, task_service_required, task_service_unknown, task_command_required,
  hosts_required, rules_required, rule_host_required, rule_host_unknown, rule_path_relative,
  rule_service_required, rule_port_required, route_duplicate, host_blank, host_duplicate,
  check_target, route_key, check_rules, check_hosts, validate_task, validate_task_if_any,
  validate_tasks, validate_ingress, validate_ingress_if_any, validate_build, validate_named_service,
  validate_resolved_project_config,
}
use devopsellence.Config.Resolved.Sound.{IsSoundService, validate_service-IsSoundService}

-- The host and path of a rule, as one text.
unfoldable pub rule_key : (ℕ → ℕ) → IngressRuleConfig → Text
rule_key lower rule =
    route_key (normalized_ingress_host lower rule.match.host)
      (or_default (trim rule.match.path_prefix) (codes "/"))

-- The service that a rule targets is there and has the port that it names.
unfoldable pub reaches_port : Dict ServiceConfig → IngressRuleConfig → Bool
reaches_port services rule = elim (lookup (trim rule.target.service) services) [
  | none ↦ false
  | some s ↦ has_port_named s.ports (trim rule.target.port)
]

-- A rule for one of the hosts, to a port of a service that is there.
pub record IsSoundRule (lower : ℕ → ℕ) (services : Dict ServiceConfig) (hosts : List Text)
    (rule : IngressRuleConfig) : Type 0 where
  pub host_known : contains hosts (normalized_ingress_host lower rule.match.host) ≡ true
  pub service_named : is_empty (trim rule.target.service) ≡ false
  pub target_reached : reaches_port services rule ≡ true

target-reaches :
    (i : ℕ) (services : Dict ServiceConfig) (rule : IngressRuleConfig)
    → check_target i
        (trim rule.target.service)
        (trim rule.target.port)
        (lookup (trim rule.target.service) services)
      ≡ ok tt
    → reaches_port services rule ≡ true
unfolding check_target reaches_port
target-reaches i services rule h =
    elim (Option-cases (lookup (trim rule.target.service) services)) [
      | inl e ↦ absurd (ground (arith, rw e at h))
      | inr (s, e) ↦
          let h1 =
            reject_if-ok (is_empty (trim rule.target.port)) (rule_port_required i) _ tt
              (rw e at h) in
          rw (reaches_port, e) (ground (arith, h1.1))
    ]

module _ (lower : ℕ → ℕ) (services : Dict ServiceConfig) (hosts : List Text) where
  pub checked_rules_sound :
      (i : ℕ) (seen : List Text) (rules : List IngressRuleConfig)
      → check_rules lower services hosts i seen rules ≡ ok tt
      → All (IsSoundRule lower services hosts) rules
        × ((is_distinct (map (rule_key lower) rules) ≡ true)
            × ((k : Text)
                → contains (map (rule_key lower) rules) k ≡ true
                → contains seen k ≡ false))
  unfolding check_rules is_distinct contains rule_key
  checked_rules_sound i seen [] h = (tt, (refl, λ n k. absurd (ground arith)))
  checked_rules_sound i seen (r ∷ rs) h =
      let host = normalized_ingress_host lower r.match.host in
      let path = or_default (trim r.match.path_prefix) (codes "/") in
      let service = trim r.target.service in
      let h1 = reject_if-ok (is_empty host) (rule_host_required i) _ tt h in
      let h2 = reject_if-ok (not (contains hosts host)) (rule_host_unknown i) _ tt h1.1 in
      let h3 = reject_if-ok (not (has_prefix path (codes "/"))) (rule_path_relative i) _ tt h2.1 in
      let h4 = reject_if-ok (is_empty service) (rule_service_required i) _ tt h3.1 in
      let h5 =
        bind-ok (check_target i service (trim r.target.port) (lookup service services)) _ tt h4.1 in
      let h6 =
        reject_if-ok (contains seen (rule_key lower r)) (route_duplicate host path) _ tt h5.1.1 in
      let later = checked_rules_sound (suc i) (rule_key lower r ∷ seen) rs h6.1 in
      (
        (
          record {
            host_known = ground (arith, h2.0);
            service_named = h4.0;
            target_reached = target-reaches i services r h5.1.0;
          },
          later.0,
        ),
        (
          ground (arith, later.1.0, later.1.1 (rule_key lower r), eq_refl (rule_key lower r)),
          λ n k. ground (arith, h6.0, later.1.1 n, eq_iff (rule_key lower r) n),
        ),
      )

-- The release task runs on a service that is there, with a command or arguments.
pub record IsSoundTask (services : Dict ServiceConfig) (task : TaskConfig) : Type 0 where
  pub service_known : has_key (trim task.service) services ≡ true
  pub has_work : (is_empty task.command && is_empty task.args) ≡ false

-- Distinct hosts, and rules for them with different hosts or paths.
pub record IsSoundIngress (lower : ℕ → ℕ) (services : Dict ServiceConfig) (ingress : IngressConfig)
    : Type 0 where
  pub hosts_distinct : is_distinct (map trim ingress.hosts) ≡ true
  pub rules_sound :
      All
        (IsSoundRule lower services (map (normalized_ingress_host lower) ingress.hosts))
        ingress.rules
  pub routes_distinct : is_distinct (map (rule_key lower) ingress.rules) ≡ true
  pub has_rules : is_empty ingress.rules ≡ false

-- What one environment's configuration promises to the planner.
pub record IsSound (lower : ℕ → ℕ) (cfg : ProjectConfig) : Type 0 where
  pub has_services : is_empty cfg.services ≡ false
  pub services_sound :
      (name : Text) (s : ServiceConfig) → lookup name cfg.services ≡ some s → IsSoundService name s
  pub task_sound :
      (task : TaskConfig) → cfg.tasks.release ≡ some task → IsSoundTask cfg.services task
  pub ingress_sound :
      (ingress : IngressConfig)
      → cfg.ingress ≡ some ingress
      → IsSoundIngress lower cfg.services ingress

validate_task-IsSoundTask :
    (services : Dict ServiceConfig) (task : TaskConfig)
    → validate_task services task ≡ ok tt
    → IsSoundTask services task
unfolding validate_task
validate_task-IsSoundTask services task h =
    let h1 = reject_if-ok (is_empty (trim task.service)) task_service_required _ tt h in
    let h2 =
      reject_if-ok (not (has_key (trim task.service) services))
        (task_service_unknown (trim task.service)) _ tt h1.1 in
    let h3 =
      reject_if-ok (is_empty task.command && is_empty task.args) task_command_required _ tt h2.1 in
    record { service_known = ground (arith, h2.0); has_work = h3.0 }

hosts-distinct :
    (seen hosts : List Text)
    → check_hosts seen hosts ≡ ok tt
    → (is_distinct (map trim hosts) ≡ true)
      × ((n : Text) → contains (map trim hosts) n ≡ true → contains seen n ≡ false)
unfolding check_hosts is_distinct contains
hosts-distinct seen [] h = (refl, λ n k. absurd (ground arith))
hosts-distinct seen (v ∷ vs) h =
    let h1 = reject_if-ok (is_empty (trim v)) host_blank _ tt h in
    let h2 = reject_if-ok (contains seen (trim v)) (host_duplicate (trim v)) _ tt h1.1 in
    let later = hosts-distinct (trim v ∷ seen) vs h2.1 in
    (
      ground (arith, later.0, later.1 (trim v), eq_refl (trim v)),
      λ n k. ground (arith, h2.0, later.1 n, eq_iff (trim v) n),
    )

validate_ingress-IsSoundIngress :
    (lower : ℕ → ℕ) (services : Dict ServiceConfig) (ingress : IngressConfig)
    → validate_ingress lower services ingress ≡ ok tt
    → IsSoundIngress lower services ingress
unfolding validate_ingress
validate_ingress-IsSoundIngress lower services ingress h =
    let hosts = map (normalized_ingress_host lower) ingress.hosts in
    let h1 = reject_if-ok (is_empty ingress.hosts) hosts_required _ tt h in
    let h2 = bind-ok (check_hosts [] ingress.hosts) _ tt h1.1 in
    let h3 = reject_if-ok (is_empty ingress.rules) rules_required _ tt h2.1.1 in
    let h4 = bind-ok (check_rules lower services hosts 0 [] ingress.rules) _ tt h3.1 in
    let rules = checked_rules_sound lower services hosts 0 [] ingress.rules h4.1.0 in
    record {
      hosts_distinct = (hosts-distinct [] ingress.hosts h2.1.0).0;
      rules_sound = rules.0;
      routes_distinct = rules.1.0;
      has_rules = h3.0;
    }

named_service_sound :
    (services : Dict ServiceConfig) (names : List Text)
    → for_each (validate_named_service services) names ≡ ok tt
    → (name : Text) (s : ServiceConfig) → contains names name ≡ true
    → lookup name services ≡ some s
    → IsSoundService name s
unfolding validate_named_service
named_service_sound services names h name s c e =
    let checked =
      contains-all (λ n. validate_named_service services n ≡ ok tt) names name
        (for_each-All (validate_named_service services) names h) c in
    validate_service-IsSoundService name s (rw (validate_named_service, e) at checked)

pub validate_resolved-IsSound :
    (lower : ℕ → ℕ) (cfg : ProjectConfig)
    → validate_resolved_project_config lower cfg ≡ ok tt
    → IsSound lower cfg
unfolding validate_resolved_project_config service_names validate_tasks validate_task_if_any
    validate_ingress_if_any
validate_resolved-IsSound lower cfg h =
    let h1 = bind-ok (validate_build cfg.build) _ tt h in
    let h2 = reject_if-ok (is_empty cfg.services) services_required _ tt h1.1.1 in
    let h3 =
      bind-ok (for_each (validate_named_service cfg.services) (service_names cfg)) _ tt h2.1 in
    let h4 = bind-ok (validate_task_if_any cfg.services cfg.tasks.release) _ tt h3.1.1 in
    record {
      has_services = h2.0;
      services_sound = λ name s e.
          named_service_sound cfg.services (service_names cfg) h3.1.0 name s
            (ground (
              arith,
              contains-sort (keys cfg.services) name,
              has_key-keys name cfg.services,
              has_key_of_lookup name cfg.services s e,
            ))
            e;
      task_sound = λ task e.
          validate_task-IsSoundTask cfg.services task
            (subst (λ o. validate_task_if_any cfg.services o ≡ ok tt) e h4.1.0);
      ingress_sound = λ ingress e.
          validate_ingress-IsSoundIngress lower cfg.services ingress
            (subst (λ o. validate_ingress_if_any lower cfg.services o ≡ ok tt) e h4.1.1);
    }
