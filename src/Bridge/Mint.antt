-- ===== src/Bridge/Mint.antt =====
-- `mintStepGrant` (control-plane/grant-service.ts) and the bridge's check of what it mints.
use tool_flow.Prelude.{
  ℕ, true, ◌+◌, ◌*◌, ◌<◌, suc, ◌≡◌, refl, Str, Option, none, lookup-put_self, key2_eq, str_eq,
  beq_self,
}
use tool_flow.Types.{CompiledStep, PolicyArtifact, StepGrant, issued, obj, Json, ok}
use tool_flow.Env.{Env}
use tool_flow.Hashing.{hash_json}
use tool_flow.Crypto.{RuntimeKey, sign_object, verify_object}
use tool_flow.World.{World, now_iso, random_hex}
use tool_flow.Ledger.{write_grant}
use tool_flow.Bridge.{grant_at, mint_step_grant, request_of, verify_grant_for_request}
use tool_flow.Bridge.Verify.{verify_grant_for_request_iff}

verify_object-sign_object :
    (env : Env) (value : Json) (key : RuntimeKey)
    → verify_object env value (sign_object env value key) key ≡ true
unfolding verify_object
verify_object-sign_object env value key = beq_self {A = Str} _

module _ (env : Env) (key : RuntimeKey) (run_id : Str) (step : CompiledStep)
    (policy : PolicyArtifact) (ttl : ℕ) (approval_hash : Option Str) (w : World) where
  -- The grant that is minted in a world.
  abbrev pub minted : StepGrant
  minted =
      grant_at env key run_id step policy ttl approval_hash (env.random w.draws) (env.clock w.ticks)
        (env.clock (suc w.ticks)) (env.random (suc w.draws))

  mint_step_grant-eq :
      (mint_step_grant env key run_id step policy ttl approval_hash w).0 ≡ ok minted
  unfolding mint_step_grant
  mint_step_grant-eq = refl

  -- `mintStepGrant` never fails. If the payload hash of the step is that of its payload and the
  -- time to live, counted from the minting, is not over at the next reading of the clock, then the
  -- bridge's check of the minted grant for the step, with the same key and policy, passes.
  pub mint_step_grant-verify :
      step.payload_hash ≡ hash_json env (obj step.payload)
      → env.clock (suc (suc w.ticks)) < env.clock (suc w.ticks) + ttl * 1000
      → (g : StepGrant) × ((mint_step_grant env key run_id step policy ttl approval_hash w).0
          ≡ ok g)
        × ((verify_grant_for_request env policy key
              (request_of step g)
              (mint_step_grant env key run_id step policy ttl approval_hash w).1).0
            ≡ ok tt)
  unfolding mint_step_grant request_of grant_at write_grant now_iso random_hex
  mint_step_grant-verify same alive = (
    minted,
    refl,
    (verify_grant_for_request_iff env policy key (request_of step minted)
          (mint_step_grant env key run_id step policy ttl approval_hash w).1).1
        (record {
          signed = verify_object-sign_object env _ key;
          alive = alive;
          same_bridge = refl;
          same_cell = refl;
          same_action = refl;
          same_payload = same;
          same_policy = refl;
          stored = record { grant = minted; state = issued; consumed_at = none; receipt_id = none };
          found = lookup-put_self w.ledger.grants _ _;
          unused = refl;
        }),
  )
