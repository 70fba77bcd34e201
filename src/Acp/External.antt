-- ===== src/Acp/External.antt =====
-- The types that the code takes from other crates: values of serde_json, 64-bit floats, the stop
-- reasons and the capability record of the ACP schema. A connection to an agent
-- (`Box<dyn AcpSession>`) and a session store (`Box<dyn SessionStore>`) are trait objects.
pub record Externals : Type 1 where
  pub Value : Type 0
  pub Float : Type 0
  pub StopReason : Type 0
  pub AgentCapabilities : Type 0
  pub Connection : Type 0
  pub Store : Type 0
