-- ===== src/Storage/Models.antt =====
-- The enumerations of src/hal9000/sentience/models.py that the store and its clients use.
use bollywood_hal.Prelude.{ℕ, String, Bool}

pub data RetentionClass : Type 0 where
  forever long episodic short transient never : RetentionClass

pub data Sensitivity : Type 0 where
  public internal confidential restricted prohibited : Sensitivity

pub data Severity : Type 0 where
  debug info notice warning error critical : Severity

pub data EventOrigin : Type 0 where
  observation inference user_assertion model_assertion configuration : EventOrigin

pub data CapabilityLifecycle : Type 0 where
  unknown discovered initializing ready degraded unreliable denied unavailable disconnected failed
        recovering stale :
      CapabilityLifecycle

pub data DegradationState : Type 0 where
  nominal degrading degraded recovering : DegradationState

pub data DegradationSeverity : Type 0 where
  cosmetic peripheral cognitive critical : DegradationSeverity

pub record IntegrityResult : Type 0 where
  pub valid : Bool
  pub checked : ℕ

pub record StoredEvent : Type 0 where
  pub sequence : ℕ
  pub event_id : String
  pub inserted : Bool
