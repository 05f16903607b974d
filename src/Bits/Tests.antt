-- ===== src/Bits/Tests.antt =====
-- The bits of a hash whose bytes are all 165.
use sol_gateway_dcc_zk_proof.Base.{◌≡◌, refl, arith, ◌++◌, replicate, ℕ, zero, suc}
use sol_gateway_dcc_zk_proof.Bytes.{AreBytes}
use sol_gateway_dcc_zk_proof.Bits.{bytes_to_bits_le, number_to_bits_le, hash_to_field_elements}
use sol_gateway_dcc_zk_proof.Bits.Hashes.{hash_to_field_elements-bits}

hash-AreBytes : (n : ℕ) → AreBytes (replicate n 165)
hash-AreBytes zero = tt
hash-AreBytes (suc n) = (omega arith, hash-AreBytes n)

hash_to_field_elements-bits_example :
    number_to_bits_le (hash_to_field_elements (replicate 32 165)).0 128
      ++ number_to_bits_le (hash_to_field_elements (replicate 32 165)).1 128
    ≡ bytes_to_bits_le (replicate 32 165)
hash_to_field_elements-bits_example =
    hash_to_field_elements-bits (replicate 32 165) refl (hash-AreBytes 32)
