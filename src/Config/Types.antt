-- ===== src/Config/Types.antt =====
-- deployment-core/pkg/deploycore/config/config.go: the types. A nil slice or map is an empty list,
-- except in an overlay, where the code tells them apart: there it is `none`, as an absent pointer is.
use devopsellence.Base.{Bool, Option, none, List, [], ◌∷◌, Text, codes, ℤ, pos, Dict}

pub record Volume : Type 0 where
  pub source : Text
  pub target : Text

pub record SecretRef : Type 0 where
  pub name : Text
  pub secret : Text

pub record HttpHealthcheck : Type 0 where
  pub path : Text
  pub port : ℤ

pub record ServicePort : Type 0 where
  pub name : Text
  pub port : ℤ

pub record ServiceConfig : Type 0 where
  pub image : Text
  pub command : List Text
  pub args : List Text
  pub env : Dict Text
  pub secret_refs : List SecretRef
  pub ports : List ServicePort
  pub healthcheck : Option HttpHealthcheck
  pub volumes : List Volume

pub record TaskConfig : Type 0 where
  pub service : Text
  pub command : List Text
  pub args : List Text
  pub env : Dict Text

pub record TasksConfig : Type 0 where
  pub release : Option TaskConfig

pub record BuildConfig : Type 0 where
  pub context : Text
  pub dockerfile : Text
  pub platforms : List Text

pub record IngressTlsConfig : Type 0 where
  pub mode : Text
  pub email : Text
  pub ca_directory_url : Text

pub record IngressMatchConfig : Type 0 where
  pub host : Text
  pub path_prefix : Text

pub record IngressTargetConfig : Type 0 where
  pub service : Text
  pub port : Text

pub record IngressRuleConfig : Type 0 where
  pub match : IngressMatchConfig
  pub target : IngressTargetConfig

pub record IngressConfig : Type 0 where
  pub hosts : List Text
  pub rules : List IngressRuleConfig
  pub tls : IngressTlsConfig
  pub redirect_http : Option Bool

pub record HttpHealthcheckOverlay : Type 0 where
  pub path : Option Text
  pub port : Option ℤ

pub record ServiceConfigOverlay : Type 0 where
  pub image : Option Text
  pub command : Option (List Text)
  pub args : Option (List Text)
  pub env : Option (Dict Text)
  pub secret_refs : Option (List SecretRef)
  pub ports : Option (List ServicePort)
  pub healthcheck : Option HttpHealthcheckOverlay
  pub volumes : Option (List Volume)

pub record TaskConfigOverlay : Type 0 where
  pub service : Option Text
  pub command : Option (List Text)
  pub args : Option (List Text)
  pub env : Option (Dict Text)

pub record TasksConfigOverlay : Type 0 where
  pub release : Option TaskConfigOverlay

pub record IngressTlsConfigOverlay : Type 0 where
  pub mode : Option Text
  pub email : Option Text
  pub ca_directory_url : Option Text

pub record IngressConfigOverlay : Type 0 where
  pub hosts : Option (List Text)
  pub rules : Option (List IngressRuleConfig)
  pub tls : Option IngressTlsConfigOverlay
  pub redirect_http : Option Bool

pub record EnvironmentOverlay : Type 0 where
  pub ingress : Option IngressConfigOverlay
  pub services : Dict ServiceConfigOverlay
  pub tasks : Option TasksConfigOverlay

pub record ProjectConfig : Type 0 where
  pub schema_version : ℤ
  pub organization : Text
  pub project : Text
  pub default_environment : Text
  pub build : BuildConfig
  pub services : Dict ServiceConfig
  pub tasks : TasksConfig
  pub ingress : Option IngressConfig
  pub environments : Dict EnvironmentOverlay

-- The zero values that a merge starts from.
abbrev pub empty_service : ServiceConfig
empty_service = record {
  image = [];
  command = [];
  args = [];
  env = [];
  secret_refs = [];
  ports = [];
  healthcheck = none;
  volumes = [];
}

abbrev pub empty_task : TaskConfig
empty_task = record { service = []; command = []; args = []; env = [] }

abbrev pub empty_ingress : IngressConfig
empty_ingress = record {
  hosts = [];
  rules = [];
  tls = record { mode = []; email = []; ca_directory_url = [] };
  redirect_http = none;
}

abbrev pub current_schema_version : ℤ
current_schema_version = pos 1

abbrev pub default_build_platforms : List Text
default_build_platforms = codes "linux/amd64" ∷ []

abbrev pub default_web_port : ℤ
default_web_port = pos 3000

abbrev pub web : Text
web = codes "web"

abbrev pub worker : Text
worker = codes "worker"
