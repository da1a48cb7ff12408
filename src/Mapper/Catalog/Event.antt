-- ===== src/Mapper/Catalog/Event.antt =====
-- ml/semantic_mapper/mapper.py: the catalog's critical event metadata.
use ulpx.Base.{List, [], ◌∷◌, true, some}
use ulpx.Mapper.{
  CanonicalFieldDefinition, network_connection, firewall_policy, authentication, security_alert,
  generic_network_event, all_families,
}

abbrev event_action : CanonicalFieldDefinition
event_action = record {
  path = "event.action";
  expected_types = "string" ∷ [];
  description = "Action taken on the event (e.g. allowed, blocked, denied)";
  is_critical = true;
  event_families =
      network_connection ∷ firewall_policy ∷ authentication ∷ security_alert ∷ generic_network_event
      ∷ [];
  aliases =
      "act" ∷ "action" ∷ "activity" ∷ "decision" ∷ "status_action" ∷ "disposition" ∷ "rule_action"
      ∷ "filter_action" ∷ "event_action" ∷ [];
  suggested_transform = some "trim";
}

abbrev event_outcome : CanonicalFieldDefinition
event_outcome = record {
  path = "event.outcome";
  expected_types = "string" ∷ "boolean" ∷ [];
  description = "Result of event (e.g. success, failure, timeout)";
  is_critical = true;
  event_families = authentication ∷ network_connection ∷ firewall_policy ∷ security_alert ∷ [];
  aliases =
      "outcome" ∷ "result" ∷ "status" ∷ "res" ∷ "success" ∷ "session_status" ∷ "auth_result"
      ∷ "login_status" ∷ "status_code_name" ∷ [];
  suggested_transform = some "trim";
}

abbrev event_time : CanonicalFieldDefinition
event_time = record {
  path = "event.time";
  expected_types = "timestamp" ∷ "integer" ∷ "float" ∷ [];
  description = "Timestamp when event occurred";
  is_critical = true;
  event_families = all_families;
  aliases =
      "timestamp" ∷ "time" ∷ "ts" ∷ "event_time" ∷ "datetime" ∷ "date_time" ∷ "occurred_at"
      ∷ "received_at" ∷ "eventtime" ∷ "generation_time" ∷ "log_time" ∷ "device_time" ∷ [];
  suggested_transform = some "parse_timestamp";
}

abbrev event_class : CanonicalFieldDefinition
event_class = record {
  path = "event.class";
  expected_types = "string" ∷ [];
  description = "Event classification taxonomy";
  is_critical = true;
  event_families = all_families;
  aliases =
      "event_class" ∷ "class" ∷ "event_type" ∷ "type" ∷ "category" ∷ "cat" ∷ "device_event_class_id"
      ∷ "event_id" ∷ "signature_id" ∷ [];
  suggested_transform = some "trim";
}

abbrev pub event_fields : List CanonicalFieldDefinition
event_fields = event_action ∷ event_outcome ∷ event_time ∷ event_class ∷ []
