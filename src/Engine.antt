-- ===== src/Engine.antt =====
-- agent/internal/engine/engine.go: what the container engine reports of containers and images.
-- Sizes are numbers without bound.
use devopsellence.Base.{ℕ, Bool, List, Text, ℤ, Dict}

pub record ContainerState : Type 0 where
  pub name : Text
  pub image : Text
  pub running : Bool
  pub managed : Bool
  pub hash : Text
  pub revision : Text
  pub environment : Text
  pub service : Text
  pub service_kind : Text
  pub system : Text

pub record ImageState : Type 0 where
  pub id : Text
  pub repo_tags : List Text
  pub repo_digests : List Text
  pub size : ℕ

pub record ImageDelete : Type 0 where
  pub deleted : Text
  pub untagged : Text

pub record PortBinding : Type 0 where
  pub container_port : ℕ
  pub host_port : ℕ
  pub protocol : Text

pub record ContainerInfo : Type 0 where
  pub name : Text
  pub running : Bool
  pub health : Text
  pub state_status : Text
  pub exit_code : ℤ
  pub state_error : Text
  pub finished_at : Text
  pub entrypoint : List Text
  pub command : List Text
  pub has_healthcheck : Bool
  pub publish_host_port : Bool
  pub published_ports : List PortBinding
  pub network_ip : Dict Text
  pub log_path : Text
  pub log_driver : Text
  pub log_options : Dict Text
