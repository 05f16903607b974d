-- ===== src/Bits.antt =====
-- The bit helpers of validator/src/zk/zk-utils.ts, for the inputs of the circuit. A bit is 0 or 1,
-- which the source writes as a text.
pub mod Hashes
mod Tests
use sol_gateway_dcc_zk_proof.Base.{ℕ, zero, suc, ◌/◌, ◌%◌, List, [], ◌∷◌, ◌++◌}
use sol_gateway_dcc_zk_proof.Bytes.{Bytes}
use sol_gateway_dcc_zk_proof.Bytes.Values.{join_down}

-- `(b >> j) & 1` for `j` from 0 to 7.
abbrev pub byte_bits : ℕ → List ℕ
byte_bits b =
    b % 2
    ∷ b / 2 % 2
    ∷ b / 4 % 2
    ∷ b / 8 % 2
    ∷ b / 16 % 2
    ∷ b / 32 % 2
    ∷ b / 64 % 2
    ∷ b / 128 % 2
    ∷ []

unfoldable pub bytes_to_bits_le : Bytes → List ℕ
bytes_to_bits_le [] = []
bytes_to_bits_le (b ∷ bytes) = byte_bits b ++ bytes_to_bits_le bytes

unfoldable pub number_to_bits_le : ℕ → ℕ → List ℕ
number_to_bits_le value zero = []
number_to_bits_le value (suc num_bits) = value % 2 ∷ number_to_bits_le (value / 2) num_bits

-- `lo` and `hi`.
unfoldable pub hash_to_field_elements : Bytes → ℕ × ℕ
hash_to_field_elements hash = (join_down 16 0 0 hash, join_down 16 16 0 hash)
