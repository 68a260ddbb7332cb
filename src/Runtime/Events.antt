-- ===== src/Runtime/Events.antt =====
-- runtime/events.rs: the events of the bus. The bus is the sequence of events published so far, which
-- is what a subscriber that keeps up receives.
use warpdeck.Prelude.{ℕ, Option, List, [], ◌∷◌, ◌++◌}
use warpdeck.Runtime.Instance.{InstanceId}
use warpdeck.Runtime.Message.{Message}
use warpdeck.Runtime.Registry.{RuntimeState, IpAddr}

pub record StateTransition : Type 0 where
  pub instance_id : InstanceId
  pub from : RuntimeState
  pub to : RuntimeState
  pub reason : Message

pub data HealthEvent : Type 0 where
  state_changed : StateTransition → HealthEvent
  health_changed : StateTransition → HealthEvent
  exit_ip_changed :
      InstanceId → Option IpAddr → Option IpAddr → Option (List ℕ) → Option ℕ → HealthEvent

abbrev pub EventBus : Type 0
EventBus = List HealthEvent

abbrev pub publish : HealthEvent → EventBus → EventBus
publish e bus = bus ++ e ∷ []

-- `InstanceManager::publish_transition`.
abbrev pub publish_transition :
    InstanceId → RuntimeState → RuntimeState → Message → EventBus → EventBus
publish_transition id from to reason bus =
    publish (state_changed (record { instance_id = id; from = from; to = to; reason = reason })) bus
