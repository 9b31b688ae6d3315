-- ===== src/DesiredState/Types.antt =====
-- agent/internal/desiredstatepb/desired_state.pb.go: the messages of the desired state. A pointer
-- that may be nil is an Option, also in a repeated field.
use devopsellence.Base.{ℕ, Bool, Option, List, Text, ℤ, Dict}

pub record ServicePort : Type 0 where
  pub name : Text
  pub port : ℕ

pub record Healthcheck : Type 0 where
  pub interval_seconds : ℤ
  pub timeout_seconds : ℤ
  pub retries : ℤ
  pub start_period_seconds : ℤ
  pub path : Text
  pub port : ℕ

pub record VolumeMount : Type 0 where
  pub source : Text
  pub target : Text

pub record Service : Type 0 where
  pub name : Text
  pub kind : Text
  pub image : Text
  pub entrypoint : List Text
  pub command : List Text
  pub env : Dict Text
  pub secret_refs : Dict Text
  pub healthcheck : Option Healthcheck
  pub ports : List (Option ServicePort)
  pub volume_mounts : List VolumeMount

pub record Task : Type 0 where
  pub name : Text
  pub image : Text
  pub entrypoint : List Text
  pub command : List Text
  pub env : Dict Text
  pub secret_refs : Dict Text
  pub volume_mounts : List VolumeMount

pub record Environment : Type 0 where
  pub name : Text
  pub revision : Text
  pub services : List (Option Service)
  pub tasks : List (Option Task)

pub record IngressTls : Type 0 where
  pub mode : Text
  pub email : Text
  pub ca_directory_url : Text

pub record IngressMatch : Type 0 where
  pub hostname : Text
  pub path_prefix : Text

pub record IngressTarget : Type 0 where
  pub environment : Text
  pub service : Text
  pub port : Text

pub record IngressRoute : Type 0 where
  pub match : Option IngressMatch
  pub target : Option IngressTarget

pub record Ingress : Type 0 where
  pub hosts : List Text
  pub mode : Text
  pub tls : Option IngressTls
  pub redirect_http : Bool
  pub routes : List (Option IngressRoute)

pub record NodePeer : Type 0 where
  pub name : Text
  pub labels : List Text
  pub public_address : Text

pub record DesiredState : Type 0 where
  pub revision : Text
  pub ingress : Option Ingress
  pub node_peers : List (Option NodePeer)
  pub schema_version : ℕ
  pub environments : List (Option Environment)
