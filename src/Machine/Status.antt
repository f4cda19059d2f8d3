-- ===== src/Machine/Status.antt =====
-- internal/docker/status.go: which containers there are and run.
use infra_shelf.Common.{Bytes, Bool, true, false, List, [], ◌∷◌, Result, ok, err}
use infra_shelf.Common.Text.{codes, str_eq, trim_space}

pub record Status : Type 0 where
  pub service : Bytes
  pub container : Bytes
  pub state : Bytes
  pub present : Bool
  pub running : Bool

abbrev item : Bytes → Bytes → Status
item service container = record {
  service = service;
  container = container;
  state = [];
  present = false;
  running = false;
}

pub containers : List Status
containers =
    item (codes "PostgreSQL") (codes "infra-postgres")
    ∷ item (codes "Redis") (codes "infra-redis")
    ∷ item (codes "RabbitMQ") (codes "infra-rabbitmq")
    ∷ item (codes "AIStor") (codes "infra-aistor")
    ∷ item (codes "MongoDB") (codes "infra-mongodb")
    ∷ item (codes "SignOz") (codes "infra-signoz-otel-collector")
    ∷ []

-- What `docker inspect` of a container writes, or its error.
inspect : Result Bytes → Status → Status
inspect (err e) s = record s { state = codes "not created"; present = false; running = false }
inspect (ok output) s =
    let state = trim_space output in
    record s { state = state; present = true; running = str_eq state (codes "running") }

inspect_all : (Bytes → Result Bytes) → List Status → List Status
unfolding inspect
inspect_all docker [] = []
inspect_all docker (s ∷ ss) = inspect (docker s.container) s ∷ inspect_all docker ss

pub list_status : (Bytes → Result Bytes) → List Status
unfolding inspect_all
list_status docker = inspect_all docker containers
