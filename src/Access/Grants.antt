-- ===== src/Access/Grants.antt =====
-- packages/execution-auth/src/index.ts: runtime grants and execution envelopes. The `jose` library
-- that signs and verifies them is a parameter.
use ehfconcept.Prelude.{ℕ, String, List, Option, min, max, or_else}

pub record RuntimeGrant : Type 0 where
  pub run_id : String
  pub attempt : ℕ
  pub worker_id : String
  pub plan_digest : String
  pub fencing_epoch : ℕ

pub record ExecutionEnvelope : Type 0 where
  pub invocation_id : String
  pub run_id : String
  pub node_id : String
  pub attempt : ℕ
  pub plan_digest : String
  pub permission_digest : String
  pub capabilities : List String
  pub effects : List String
  pub case_writes : List String
  pub fencing_epoch : ℕ
  -- Lifetime in seconds.
  pub ttl : ℕ

-- `sign` and `verify` with a secret. A token that does not verify, or has expired, is `none`.
pub record Tokens : Type 0 where
  pub sign_envelope : String → ExecutionEnvelope → String
  pub sign_grant : String → ℕ → RuntimeGrant → String
  pub verify_grant : String → String → Option RuntimeGrant

-- `Math.min(120, Math.max(5, ttlSeconds ?? 60))`
unfoldable pub envelope_ttl : Option ℕ → ℕ
envelope_ttl ttl_seconds = min 120 (max 5 (or_else ttl_seconds 60))

-- `Math.min(3_600, Math.max(30, ttlSeconds))`
unfoldable pub grant_ttl : ℕ → ℕ
grant_ttl ttl_seconds = min 3600 (max 30 ttl_seconds)

unfoldable pub mint_execution_envelope : Tokens → String → ExecutionEnvelope → Option ℕ → String
unfolding envelope_ttl
mint_execution_envelope tokens secret input ttl_seconds =
    tokens.sign_envelope secret (record input { ttl = envelope_ttl ttl_seconds })

unfoldable pub mint_runtime_grant : Tokens → String → RuntimeGrant → ℕ → String
unfolding grant_ttl
mint_runtime_grant tokens secret input ttl_seconds =
    tokens.sign_grant secret (grant_ttl ttl_seconds) input
