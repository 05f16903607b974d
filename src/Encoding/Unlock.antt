-- ===== src/Encoding/Unlock.antt =====
-- What the bytes of an unlock message determine.
use sol_gateway_dcc_zk_proof.Base.{◌^◌, ◌<◌, ◌≡◌, refl, sym, ap, ◌∙◌, arith, ok, length}
use sol_gateway_dcc_zk_proof.Bytes.Digits.{u32_bytes-injective, u64_bytes-injective}
use sol_gateway_dcc_zk_proof.Bytes.Layout.{concat, concat-injective}
use sol_gateway_dcc_zk_proof.Encoding.{
  Signed, pos, negsuc, UnlockEnvelope, or_default, domain_sep_unlock, unsigned64,
  encode_unlock_message,
}
use sol_gateway_dcc_zk_proof.Encoding.Layout.{
  UnlockFits, unlock_parts, encode_unlock_message-concat,
}

-- An i64.
abbrev pub IsI64 : Signed → Type 0
IsI64 (pos n) = n < 2 ^ 63
IsI64 (negsuc n) = n < 2 ^ 63

pub record UnlockRanges (env : UnlockEnvelope) : Type 0 where
  pub amount : env.amount < 2 ^ 64
  pub chain : env.dcc_chain_id < 2 ^ 32
  pub expiration : IsI64 env.expiration

unsigned64-lt : (v : Signed) → IsI64 v → unsigned64 v < 2 ^ 64
unsigned64-lt (pos n) h = omega arith
unsigned64-lt (negsuc n) h = omega arith

unsigned64-injective : (v w : Signed) → IsI64 v → IsI64 w → unsigned64 v ≡ unsigned64 w → v ≡ w
unsigned64-injective (pos n) (pos m) h k e = ap pos e
unsigned64-injective (pos n) (negsuc m) h k e = absurd (omega arith)
unsigned64-injective (negsuc n) (pos m) h k e = absurd (omega arith)
unsigned64-injective (negsuc n) (negsuc m) h k e = let same : n ≡ m = omega arith in ap negsuc same

-- What an unlock authorises.
pub record SameUnlock (env other : UnlockEnvelope) : Type 0 where
  pub transfer : env.transfer_id ≡ other.transfer_id
  pub recipient : env.recipient ≡ other.recipient
  pub amount : env.amount ≡ other.amount
  pub burn : env.burn_tx_hash ≡ other.burn_tx_hash
  pub chain : env.dcc_chain_id ≡ other.dcc_chain_id
  pub expiration : env.expiration ≡ other.expiration

-- Two unlock messages with the same bytes agree on the transfer, the recipient, the amount, the burn,
-- the chain and the expiration, where both have arrays of 32 bytes, numbers in range and domain
-- separators of one length.
pub encode_unlock_message-injective :
    (env other : UnlockEnvelope)
    → UnlockFits env
    → UnlockFits other
    → UnlockRanges env
    → UnlockRanges other
    → length (or_default env.domain_sep domain_sep_unlock)
      ≡ length (or_default other.domain_sep domain_sep_unlock)
    → encode_unlock_message env ≡ encode_unlock_message other
    → SameUnlock env other
encode_unlock_message-injective env other f g r s d e =
    let same : ok (concat (unlock_parts env)) ≡ ok (concat (unlock_parts other)) =
      sym (encode_unlock_message-concat env f) ∙ (e ∙ encode_unlock_message-concat other g) in
    let (_, (transfer, (recipient, (amount, (burn, (chain, (expiry, _))))))) =
      concat-injective (unlock_parts env) (unlock_parts other)
        (
          d,
          (
            f.transfer ∙ sym g.transfer,
            (f.recipient ∙ sym g.recipient, (refl, (f.burn ∙ sym g.burn, (refl, (refl, tt))))),
          ),
        )
        (cc same) in
    record {
      transfer = transfer;
      recipient = recipient;
      amount = u64_bytes-injective _ _ r.amount s.amount amount;
      burn = burn;
      chain = u32_bytes-injective _ _ r.chain s.chain chain;
      expiration = unsigned64-injective _ _ r.expiration s.expiration (
          u64_bytes-injective _ _ (unsigned64-lt _ r.expiration) (unsigned64-lt _ s.expiration)
            expiry);
    }
