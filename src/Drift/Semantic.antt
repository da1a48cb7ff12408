-- ===== src/Drift/Semantic.antt =====
-- ml/drift/semantic.py: changes of meaning between two specs and the events that they give.
pub mod Mappings
pub mod Enums
pub mod Families
pub mod Blocks
pub mod Detect
pub mod States
pub mod Readable
use ulpx.Base.{String, Option, none, some, List, [], ◌∷◌}

-- What reading an event of an unexpected shape raises.
pub data SemanticError : Type 0 where
  -- AttributeError: `.get` of a value that is no dict.
  no_attribute : SemanticError
  -- TypeError: a list or a dict where a set is asked for it.
  unhashable : SemanticError
  -- TypeError: `in` a number or a boolean.
  not_iterable : SemanticError

pub record SemanticDriftThresholds (F : Type 0) : Type 0 where
  pub dps_regression : F
  pub enum_drift_score : F
  pub critical_mapping_drift : F
  pub event_family_drift : F
