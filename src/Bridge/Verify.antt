-- ===== src/Bridge/Verify.antt =====
-- Exactly which requests pass `verifyGrantForRequest`, and what it leaves as it was.
use tool_flow.Prelude.{
  ◌<◌, suc, true, ◌≡◌, ◌↔◌, inl, inr, Str, some, Option-cases, ◌==◌, str_eq, eq_of_beq, lookup,
  key2_eq, arith,
}
use tool_flow.Types.{
  cell_eq, cell_beq_iff, action_eq, action_beq_iff, BridgeId, bridge_v1, obj, issued,
  PolicyArtifact, GrantRecord, BridgeRequest, ok,
}
use tool_flow.Env.{Env}
use tool_flow.Hashing.{hash_json}
use tool_flow.Crypto.{RuntimeKey, verify_object, grant_json}
use tool_flow.World.{World}
use tool_flow.Bridge.{bridge_beq, verify_grant_for_request}

pub bridge_beq_iff : (a b : BridgeId) → (bridge_beq a b ≡ true) ↔ (a ≡ b)
unfolding bridge_beq
bridge_beq_iff (bridge_v1 c) (bridge_v1 d) = ground (arith, cell_beq_iff c d)

-- The request and its grant agree, the grant is signed with the key, is not expired at the time of
-- the check, and its record is there and unused.
pub record IsValid (env : Env) (policy : PolicyArtifact) (key : RuntimeKey)
    (request : BridgeRequest) (w : World) : Type 0 where
  pub signed :
      verify_object env (grant_json env request.grant.unsigned) request.grant.signature key ≡ true
  pub alive : env.clock w.ticks < request.grant.unsigned.expires_at
  pub same_bridge : request.grant.unsigned.bridge_id ≡ request.bridge_id
  pub same_cell : request.grant.unsigned.cell_id ≡ request.cell_id
  pub same_action : request.grant.unsigned.action ≡ request.action
  pub same_payload : request.grant.unsigned.payload_hash ≡ hash_json env (obj request.payload)
  pub same_policy : request.grant.unsigned.policy_hash ≡ policy.policy_hash
  pub stored : GrantRecord
  pub found :
      lookup w.ledger.grants (request.grant.unsigned.run_id, request.grant.unsigned.grant_id)
      ≡ some stored
  pub unused : stored.state ≡ issued

module _ (env : Env) (policy : PolicyArtifact) (key : RuntimeKey) (request : BridgeRequest) where
  abbrev record_key : Str × Str
  record_key = (request.grant.unsigned.run_id, request.grant.unsigned.grant_id)

  verify-found :
      (w : World)
      → (verify_grant_for_request env policy key request w).0 ≡ ok tt
      → (rec : GrantRecord) × (lookup w.ledger.grants record_key ≡ some rec)
  unfolding verify_grant_for_request
  verify-found w h = elim (Option-cases (lookup w.ledger.grants record_key)) [
    | inl n ↦ absurd (ground arith)
    | inr found ↦ found
  ]

  -- The tests that a request has passed.
  verify-tests :
      (w : World) {rec : GrantRecord}
      → lookup w.ledger.grants record_key ≡ some rec
      → (verify_grant_for_request env policy key request w).0 ≡ ok tt
      → (verify_object env (grant_json env request.grant.unsigned) request.grant.signature key
          ≡ true)
        × (env.clock w.ticks < request.grant.unsigned.expires_at)
        × (bridge_beq request.grant.unsigned.bridge_id request.bridge_id ≡ true)
        × ((request.grant.unsigned.cell_id == request.cell_id) ≡ true)
        × ((request.grant.unsigned.action == request.action) ≡ true)
        × ((request.grant.unsigned.payload_hash == hash_json env (obj request.payload)) ≡ true)
        × ((request.grant.unsigned.policy_hash == policy.policy_hash) ≡ true)
        × (rec.state ≡ issued)
  unfolding verify_grant_for_request
  verify-tests w f h = ground arith

  verify-eq :
      (w : World)
      → (verify_grant_for_request env policy key request w).0 ≡ ok tt
      → IsValid env policy key request w
  verify-eq w h =
      let (rec, f) = verify-found w h in
      let (signed, alive, bridge, cell, action, payload, same_policy, unused) =
        verify-tests w f h in
      record {
        signed = signed;
        alive = alive;
        same_bridge = (bridge_beq_iff request.grant.unsigned.bridge_id request.bridge_id).0 bridge;
        same_cell = (cell_beq_iff request.grant.unsigned.cell_id request.cell_id).0 cell;
        same_action = (action_beq_iff request.grant.unsigned.action request.action).0 action;
        same_payload =
            eq_of_beq request.grant.unsigned.payload_hash (hash_json env (obj request.payload))
              payload;
        same_policy = eq_of_beq request.grant.unsigned.policy_hash policy.policy_hash same_policy;
        stored = rec;
        found = f;
        unused = unused;
      }

  verify-of_IsValid :
      (w : World)
      → IsValid env policy key request w
      → verify_grant_for_request env policy key request w
        ≡ (ok tt, record w { ticks = suc w.ticks })
  unfolding verify_grant_for_request
  verify-of_IsValid w v = ground (
    arith,
    (bridge_beq_iff request.grant.unsigned.bridge_id request.bridge_id).1 v.same_bridge,
    (cell_beq_iff request.grant.unsigned.cell_id request.cell_id).1 v.same_cell,
    (action_beq_iff request.grant.unsigned.action request.action).1 v.same_action,
    (str_eq.beq_iff request.grant.unsigned.payload_hash (hash_json env (obj request.payload))).1
        v.same_payload,
    (str_eq.beq_iff request.grant.unsigned.policy_hash policy.policy_hash).1 v.same_policy,
    v.signed,
    v.alive,
    v.found,
    v.unused,
  )

  -- `verifyGrantForRequest` returns exactly for the valid requests: the signature verifies with
  -- the key, the grant is not expired, it names the bridge, cell, action and payload hash of the
  -- request and the policy's hash, and the ledger holds its record in state `issued`.
  pub verify_grant_for_request_iff :
      (w : World)
      → ((verify_grant_for_request env policy key request w).0 ≡ ok tt)
        ↔ IsValid env policy key request w
  verify_grant_for_request_iff w = (verify-eq w, λ v. rw (verify-of_IsValid w v))

  -- It reads the clock at most once and writes nothing.
  pub verify-ledger :
      (w : World) → (verify_grant_for_request env policy key request w).1.ledger ≡ w.ledger
  unfolding verify_grant_for_request
  verify-ledger w = ground arith
