-- ===== src/BitOp/Tests.antt =====
-- bit_op.h: row 7 of node 3.
use openmi_base.Base.{ℕ, ◌^◌, ◌<◌, ◌≡◌, ◌↔◌, arith}
use openmi_base.Base.Int.{pos}
use openmi_base.BitOp.{get_fid, get_node_idx, get_row_idx}
use openmi_base.BitOp.Rows.{get_fid_iff}

get_fid_iff_example :
    ((get_node_idx (get_fid 3 (pos 7)) ≡ pos 3) × (get_row_idx (get_fid 3 (pos 7)) ≡ pos 7))
    ↔ ((r : ℕ) × (pos 7 ≡ pos r) × (r < 2 ^ 20))
get_fid_iff_example = get_fid_iff 3 (pos 7) (omega arith)
