-- ===== src/Config/Defaults/Idempotent.antt =====
-- deployment-core/pkg/deploycore/config/config.go: a second applyDefaults changes nothing.
use mathlib.Core.Option
use devopsellence.Base.{
  ℕ, Bool, true, false, ◌≡◌, refl, ap, ◌∙◌, Option, none, some, List, [], ◌∷◌, map, Text, codes,
  trim, trim_left, trim_right, trim_by, is_space, is_empty, contains, ℤ, merge, map_values_idem,
  IsMap, IsMap-merge, merge_copy, arith, Bool-cases, inl, inr, if◌then◌else◌, ◌||◌, is_distinct,
}
use devopsellence.Base.TextLaws.{trim_idem}
use devopsellence.Plan.Schedule.{or_default, production}
use devopsellence.Config.Types.{
  HttpHealthcheck, ServicePort, ServiceConfig, TaskConfig, TasksConfig, BuildConfig, IngressConfig,
  IngressRuleConfig, ProjectConfig, default_build_platforms, default_web_port,
  current_schema_version,
}
use devopsellence.Config.Defaults.{
  is_zero, normalized_ingress_host, normalize_ingress_host_list, normalize_string_list_keep_order,
  collect_ports, normalize_service_ports, http_port, default_healthcheck, default_service,
  default_task, default_rule, auto, default_redirect, default_ingress, unless_blank, default_build,
  default_tasks, apply_defaults,
}

-- What unicode.ToLower keeps: a lower-case rune, and whether a rune is white space.
pub record IsToLower (lower : ℕ → ℕ) : Type 0 where
  pub idem : (c : ℕ) → lower (lower c) ≡ lower c
  pub keeps_space : (c : ℕ) → is_space (lower c) ≡ is_space c

module _ (f : ℕ → ℕ) (p : ℕ → Bool) (h : (c : ℕ) → p (f c) ≡ p c) where
  trim_left-map : (s : Text) → trim_left p (map f s) ≡ map f (trim_left p s)
  unfolding trim_left
  trim_left-map [] = refl
  trim_left-map (c ∷ s) = elim (Bool-cases (p c)) [
    | inl e ↦ rw (h c, e) (trim_left-map s)
    | inr e ↦ rw (h c, e) refl
  ]

  is_empty-map : (s : Text) → is_empty (map f s) ≡ is_empty s
  is_empty-map [] = refl
  is_empty-map (c ∷ s) = refl

  trim_right-map : (s : Text) → trim_right p (map f s) ≡ map f (trim_right p s)
  unfolding trim_right
  trim_right-map [] = refl
  trim_right-map (c ∷ s) =
      rw (h c, trim_right-map s, is_empty-map (trim_right p s))
        (elim (Bool-cases (p c)) [ inl e ↦ rw e (split (trim_right p s)) | inr e ↦ rw e refl ])
    where
      split :
          (t : Text)
          → (if is_empty t then [] else f c ∷ map f t) ≡ map f (if is_empty t then [] else c ∷ t)
      split [] = refl
      split (d ∷ t) = refl

map_idem : (f : ℕ → ℕ) → ((c : ℕ) → f (f c) ≡ f c) → (s : Text) → map f (map f s) ≡ map f s
map_idem f h [] = refl
map_idem f h (c ∷ s) = rw (h c, map_idem f h s) refl

-- Normalising a list's elements twice is normalising them once.
map_each_idem {ℓ} :
    {A : Type ℓ} (f : A → A)
    → ((a : A) → f (f a) ≡ f a)
    → (xs : List A) → map f (map f xs) ≡ map f xs
map_each_idem f h [] = refl
map_each_idem f h (x ∷ xs) = rw (h x, map_each_idem f h xs) refl

trimmed_default :
    (s d : Text) → trim d ≡ d → or_default (trim (or_default (trim s) d)) d ≡ or_default (trim s) d
trimmed_default s d h = elim (Bool-cases (is_empty (trim s))) [
  | inl e ↦ rw (e, h) (default_self d)
  | inr e ↦ rw (e, trim_idem s, e) refl
]
  where
    default_self : (d : Text) → or_default d d ≡ d
    default_self [] = refl
    default_self (c ∷ d) = refl

unless_blank_idem : (s d : Text) → unless_blank (unless_blank s d) d ≡ unless_blank s d
unless_blank_idem s d = elim (Bool-cases (is_empty (trim s))) [
  | inl e ↦ rw e (self (is_empty (trim d)))
  | inr e ↦ rw (e, e) refl
]
  where
    self : (b : Bool) → (if b then d else d) ≡ d
    self true = refl
    self false = refl

map_option_idem {ℓ} :
    {A : Type ℓ} (f : A → A)
    → ((a : A) → f (f a) ≡ f a)
    → (o : Option A) → Option.map f (Option.map f o) ≡ Option.map f o
map_option_idem f h none = refl
map_option_idem f h (some a) = rw (h a) refl

slash_trimmed : trim (codes "/") ≡ codes "/"
unfolding trim trim_by trim_left trim_right is_space
slash_trimmed = refl

auto_trimmed : trim auto ≡ auto
unfolding trim trim_by trim_left trim_right is_space
auto_trimmed = refl

up_trimmed : trim (codes "/up") ≡ codes "/up"
unfolding trim trim_by trim_left trim_right is_space
up_trimmed = refl

empty_IsMap : IsMap {V = Text} []
unfolding is_distinct
empty_IsMap = refl

platforms_idem :
    (ps : List Text)
    → (if is_empty (if is_empty ps then default_build_platforms else ps)
        then default_build_platforms
        else (if is_empty ps then default_build_platforms else ps))
      ≡ (if is_empty ps then default_build_platforms else ps)
platforms_idem [] = refl
platforms_idem (p ∷ ps) = refl

module _ (lower : ℕ → ℕ) (lc : IsToLower lower) where
  trim-map : (s : Text) → trim (map lower s) ≡ map lower (trim s)
  unfolding trim trim_by
  trim-map s =
      ap (trim_right is_space) (trim_left-map lower is_space lc.keeps_space s)
      ∙ trim_right-map lower is_space lc.keeps_space (trim_left is_space s)

  normalized_host_idem :
      (host : Text)
      → normalized_ingress_host lower (normalized_ingress_host lower host)
        ≡ normalized_ingress_host lower host
  unfolding normalized_ingress_host
  normalized_host_idem host =
      rw (trim-map (trim host), trim_idem host) (map_idem lower lc.idem (trim host))

  hosts_idem :
      (hosts : List Text)
      → normalize_ingress_host_list lower (normalize_ingress_host_list lower hosts)
        ≡ normalize_ingress_host_list lower hosts
  unfolding normalize_ingress_host_list
  hosts_idem [] = refl
  hosts_idem (h ∷ hs) = ground (arith, hosts_idem hs, normalized_host_idem h)

  rule_idem :
      (r : IngressRuleConfig) → default_rule lower (default_rule lower r) ≡ default_rule lower r
  unfolding default_rule
  rule_idem r =
      rw
        (
          normalized_host_idem r.match.host,
          trimmed_default r.match.path_prefix (codes "/") slash_trimmed,
          trim_idem r.target.service,
          trim_idem r.target.port,
        )
        refl

  redirect_idem :
      (mode : Text) (b : Option Bool)
      → default_redirect mode (default_redirect mode b) ≡ default_redirect mode b
  unfolding default_redirect
  redirect_idem mode none = ground arith
  redirect_idem mode (some b) = refl

  ingress_idem :
      (i : IngressConfig)
      → default_ingress lower (default_ingress lower i) ≡ default_ingress lower i
  unfolding default_ingress
  ingress_idem i =
      rw
        (
          trimmed_default i.tls.mode auto auto_trimmed,
          hosts_idem i.hosts,
          map_each_idem (default_rule lower) rule_idem i.rules,
          trim_idem i.tls.email,
          trim_idem i.tls.ca_directory_url,
        )
        (ap
          (λ b. record {
            hosts = normalize_ingress_host_list lower i.hosts;
            rules = map (default_rule lower) i.rules;
            tls = record {
              mode = or_default (trim i.tls.mode) auto;
              email = trim i.tls.email;
              ca_directory_url = trim i.tls.ca_directory_url;
            };
            redirect_http = b;
          })
          (redirect_idem (or_default (trim i.tls.mode) auto) i.redirect_http))

ports_idem :
    (seen : List Text) (ports : List ServicePort)
    → collect_ports seen (collect_ports seen ports) ≡ collect_ports seen ports
unfolding collect_ports
ports_idem seen [] = refl
ports_idem seen (p ∷ ps) =
    elim (Bool-cases (is_empty (trim p.name) || contains seen (trim p.name))) [
      | inl e ↦ rw e (ports_idem seen ps)
      | inr e ↦
          rw (e, trim_idem p.name, e)
            (ap (λ l. record { name = trim p.name; port = p.port } ∷ l)
              (ports_idem (trim p.name ∷ seen) ps))
    ]

http_port-nonzero : (ports : List ServicePort) → is_zero (http_port ports default_web_port) ≡ false
unfolding http_port
http_port-nonzero [] = refl
http_port-nonzero (p ∷ ps) = ground (arith, http_port-nonzero ps)

healthcheck_idem :
    (ports : List ServicePort) (h : HttpHealthcheck)
    → default_healthcheck ports (default_healthcheck ports h) ≡ default_healthcheck ports h
unfolding default_healthcheck
healthcheck_idem ports h =
    rw (trimmed_default h.path (codes "/up") up_trimmed) (elim (Bool-cases (is_zero h.port)) [
      | inl e ↦ rw (e, http_port-nonzero ports) refl
      | inr e ↦ rw (e, e) refl
    ])

service_idem : (s : ServiceConfig) → default_service (default_service s) ≡ default_service s
unfolding default_service normalize_service_ports
service_idem s =
    rw
      (
        ports_idem [] s.ports,
        map_option_idem (default_healthcheck (collect_ports [] s.ports))
            (healthcheck_idem (collect_ports [] s.ports)) s.healthcheck,
      )
      refl

task_idem : (t : TaskConfig) → default_task (default_task t) ≡ default_task t
unfolding default_task normalize_string_list_keep_order
task_idem t =
    rw
      (
        trim_idem t.service,
        map_each_idem trim trim_idem t.command,
        map_each_idem trim trim_idem t.args,
        merge_copy (merge [] t.env) (IsMap-merge [] t.env empty_IsMap),
      )
      refl

tasks_idem : (t : TasksConfig) → default_tasks (default_tasks t) ≡ default_tasks t
unfolding default_tasks
tasks_idem t = rw (map_option_idem default_task task_idem t.release) refl

build_idem : (b : BuildConfig) → default_build (default_build b) ≡ default_build b
unfolding default_build
build_idem b =
    rw
      (
        unless_blank_idem b.context (codes "."),
        unless_blank_idem b.dockerfile (codes "Dockerfile"),
        platforms_idem b.platforms,
      )
      refl

version_idem :
    (v : ℤ)
    → (if is_zero (if is_zero v then current_schema_version else v)
        then current_schema_version
        else (if is_zero v then current_schema_version else v))
      ≡ (if is_zero v then current_schema_version else v)
version_idem v = ground arith

-- Applying the defaults to a configuration that has them changes nothing, for a lower-casing of
-- runes that is idempotent and keeps white space apart.
pub apply_defaults_idem :
    (lower : ℕ → ℕ) (lc : IsToLower lower) (cfg : ProjectConfig)
    → apply_defaults lower (apply_defaults lower cfg) ≡ apply_defaults lower cfg
unfolding apply_defaults
apply_defaults_idem lower lc cfg =
    rw
      (
        unless_blank_idem cfg.default_environment production,
        build_idem cfg.build,
        map_values_idem default_service service_idem cfg.services,
        tasks_idem cfg.tasks,
        map_option_idem (default_ingress lower) (ingress_idem lower lc) cfg.ingress,
        version_idem cfg.schema_version,
      )
      refl
