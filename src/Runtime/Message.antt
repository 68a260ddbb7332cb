-- ===== src/Runtime/Message.antt =====
-- The texts that the runtime stores in `last_error` and in the reason of an event: a constructor for
-- each format string of runtime/manager.rs, runtime/registry.rs and runtime/flow.rs, with what the
-- code puts into it. A text of the outside is its bytes.
use warpdeck.Prelude.{ℕ, Option, List}
use warpdeck.Prelude.Int.{ℤ}

-- runtime/control.rs.
pub data WarpControlError : Type 0 where
  command_timeout : WarpControlError
  command_failed : List ℕ → WarpControlError
  not_registered : ℕ → WarpControlError
  registration_required : ℕ → WarpControlError
  connect_failure : List ℕ → WarpControlError

-- runtime/flow.rs. An error's text is its `Display` form, so the error itself is kept.
pub data Summary : Type 0 where
  empty : Summary
  shown : WarpControlError → Summary
  raw : List ℕ → Summary

pub data FlowError : Type 0 where
  register_failed : ℕ → Summary → FlowError
  configure_failed : Summary → FlowError
  connect_failed : Summary → FlowError
  verify_failed : Summary → FlowError

pub data Message : Type 0 where
  crashed : Option ℤ → Message
  port_in_use : ℕ → Message
  credentials_failed : List ℕ → Message
  mdm_failed : List ℕ → Message
  dbus_failed : List ℕ → Message
  service_failed : List ℕ → Message
  not_ready : ℕ → Option WarpControlError → Message
  flow_failed : FlowError → Message
  not_verified : ℕ → Message
  status_disconnected : Message
  probe_failed : Message
  warp_is_off : Message
  start_reason : Message
  stop_reason : Message
  idempotent_stop : Message
  data_plane_verified : Message
  recovered : Message
  failures_reached : ℕ → Message
  health_degraded : Message
