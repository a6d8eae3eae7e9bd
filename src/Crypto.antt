-- ===== src/Crypto.antt =====
-- Signatures (packages/runtime/src/crypto/signer.ts). HMAC is the environment's; the decoding of
-- hexadecimal text and the comparison are the code's.
use tool_flow.Prelude.{
  ℕ, ◌+◌, ◌-◌, ◌*◌, Bool, ◌&&◌, Str, List, [], ◌∷◌, ◌==◌, str_eq, leb, if◌then◌else◌, Option, none,
  some, codes,
}
use tool_flow.Types.{
  Json, text, obj, end, field, cell_name, action_name, StepGrantUnsigned, ReceiptUnsigned,
  ReceiptStatus,
}
use tool_flow.Env.{Env}
use tool_flow.Hashing.{sort_for_json}
use tool_flow.Compiler.Graph.{replay_name, bridge_name, optional_text}

pub record RuntimeKey : Type 0 where
  pub key_id : Str
  pub secret : Str

unfoldable pub sign_object : Env → Json → RuntimeKey → Str
sign_object env value key = env.hmac key.secret (sort_for_json value)

unfoldable pub hex_digit : ℕ → Option ℕ
hex_digit c =
    if leb b'0' c && leb c b'9'
    then some (c - b'0')
    else if leb b'a' c && leb c b'f'
    then some (c - b'a' + 10)
    else if leb b'A' c && leb c b'F'
    then some (c - b'A' + 10)
    else none

-- `Buffer.from(text, "hex")`: the bytes up to the first pair that is no byte.
unfoldable pub from_hex : Str → List ℕ
unfolding hex_digit
from_hex [] = []
from_hex (a ∷ []) = []
from_hex (a ∷ b ∷ s) =
    let rest = from_hex s in
    elim (hex_digit a) [
      | none ↦ []
      | some x ↦ elim (hex_digit b) [ none ↦ [] | some y ↦ (x * 16 + y) ∷ rest ]
    ]

unfoldable pub verify_object : Env → Json → Str → RuntimeKey → Bool
unfolding sign_object
verify_object env value signature key = from_hex (sign_object env value key) == from_hex signature

unfoldable pub grant_json : Env → StepGrantUnsigned → Json
grant_json env g = obj (
    field (codes "schemaVersion") (text (codes "toolflow.step-grant/v1")) (
      field (codes "grantId") (text g.grant_id) (
        field (codes "runId") (text g.run_id) (
          field (codes "stepId") (text g.step_id) (
            field (codes "cellId") (text (cell_name g.cell_id)) (
              field (codes "bridgeId") (text (bridge_name g.bridge_id)) (
                field (codes "action") (text (action_name g.action)) (
                  field (codes "payloadHash") (text g.payload_hash) (
                    field (codes "policyHash") (text g.policy_hash) (
                      field (codes "approvalHash") (optional_text g.approval_hash) (
                        field (codes "replayClass") (text (replay_name g.replay_class)) (
                          field (codes "issuedAt") (text (env.iso g.issued_at)) (
                            field (codes "expiresAt") (text (env.iso g.expires_at)) (
                              field (codes "nonce") (text g.nonce)
                                (field (codes "keyId") (text g.key_id) end)))))))))))))))

unfoldable pub status_name : ReceiptStatus → Str
status_name ReceiptStatus.succeeded = codes "succeeded"
status_name ReceiptStatus.failed = codes "failed"

unfoldable pub receipt_json : Env → ReceiptUnsigned → Json
receipt_json env r = obj (
    field (codes "schemaVersion") (text (codes "toolflow.receipt/v1")) (
      field (codes "receiptId") (text r.receipt_id) (
        field (codes "grantId") (text r.grant_id) (
          field (codes "runId") (text r.run_id) (
            field (codes "stepId") (text r.step_id) (
              field (codes "bridgeId") (text (bridge_name r.bridge_id)) (
                field (codes "payloadHash") (text r.payload_hash) (
                  field (codes "policyHash") (text r.policy_hash) (
                    field (codes "status") (text (status_name r.status)) (
                      field (codes "startedAt") (text (env.iso r.started_at)) (
                        field (codes "endedAt") (text (env.iso r.ended_at)) (
                          field (codes "outputHash") (optional_text r.output_hash) (
                            field (codes "error") (optional_text r.error)
                              (field (codes "keyId") (text r.key_id) end))))))))))))))
