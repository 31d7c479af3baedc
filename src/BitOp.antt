-- ===== src/BitOp.antt =====
-- bit_op.h: the 64-bit id of a row of a node. A node's index is not negative.
pub mod Rows
mod Tests
use Prim.Native.Nat.{bit_and}
use openmi_base.Base.{ℕ, suc, ◌+◌, ◌-◌, ◌*◌, ◌/◌, ◌%◌, ◌^◌}
use openmi_base.Base.Int.{ℤ, pos, negsuc}
use openmi_base.Calendar.{to_int}

abbrev pub node_bits : ℕ
node_bits = 20

-- GetFid: the sum is one of int64_t, which the conversion to uint64_t wraps.
unfoldable pub get_fid : ℕ → ℤ → ℕ
get_fid node_idx (pos row_idx) = (node_idx * 2 ^ node_bits + row_idx) % 2 ^ 64
get_fid node_idx (negsuc n) = (node_idx * 2 ^ node_bits + (2 ^ 64 - suc n)) % 2 ^ 64

-- GetNodeIdx
unfoldable pub get_node_idx : ℕ → ℤ
get_node_idx fid = to_int (pos (fid / 2 ^ node_bits))

-- GetRowIdx
unfoldable pub get_row_idx : ℕ → ℤ
get_row_idx fid = to_int (pos (bit_and fid (2 ^ node_bits - 1)))
