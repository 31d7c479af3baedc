-- ===== src/BitOp/Rows.antt =====
-- bit_op.h: ids against their parts.
use openmi_base.Base.{ℕ, ◌+◌, ◌*◌, ◌/◌, ◌%◌, ◌^◌, ◌<◌, ◌≡◌, ◌↔◌, sym, ap, ◌∙◌, arith}
use openmi_base.Base.Bits.{bit_and_mask}
use openmi_base.Base.Int.{ℤ, pos}
use openmi_base.Calendar.{to_int}
use openmi_base.Logging.WriteOp.Given.{to_int_small}
use openmi_base.BitOp.{get_fid, get_node_idx, get_row_idx}

get_row_idx_lem : (fid : ℕ) → get_row_idx fid ≡ pos (fid % 2 ^ 20)
unfolding get_row_idx
get_row_idx_lem fid =
    ap (λ (n : ℕ). to_int (pos n)) (bit_and_mask 20 fid) ∙ to_int_small (fid % 2 ^ 20) (omega arith)

parts :
    (node r : ℕ)
    → node < 2 ^ 31
    → r < 2 ^ 20
    → (get_node_idx (get_fid node (pos r)) ≡ pos node)
      × (get_row_idx (get_fid node (pos r)) ≡ pos r)
unfolding get_node_idx get_fid
parts node r h small = (
  ap (λ (n : ℕ). to_int (pos n)) front ∙ to_int_small node h,
  get_row_idx_lem (get_fid node (pos r)) ∙ ap pos low,
)
  where
    front : (node * 2 ^ 20 + r) % 2 ^ 64 / 2 ^ 20 ≡ node
    front = omega (arith, h, small)

    low : (node * 2 ^ 20 + r) % 2 ^ 64 % 2 ^ 20 ≡ r
    low = omega (arith, h, small)

-- For a node's index that an int holds, both parts are read back exactly if the row's index is neither
-- negative nor 2^20 or more.
pub get_fid_iff :
    (node : ℕ) (row : ℤ)
    → node < 2 ^ 31
    → ((get_node_idx (get_fid node row) ≡ pos node) × (get_row_idx (get_fid node row) ≡ row))
      ↔ ((r : ℕ) × (row ≡ pos r) × (r < 2 ^ 20))
get_fid_iff node row h = (there, back)
  where
    there :
        (get_node_idx (get_fid node row) ≡ pos node) × (get_row_idx (get_fid node row) ≡ row)
        → (r : ℕ) × (row ≡ pos r) × (r < 2 ^ 20)
    there e = (get_fid node row % 2 ^ 20, sym e.1 ∙ get_row_idx_lem (get_fid node row), omega arith)

    back :
        (r : ℕ) × (row ≡ pos r) × (r < 2 ^ 20)
        → (get_node_idx (get_fid node row) ≡ pos node) × (get_row_idx (get_fid node row) ≡ row)
    back (r, e, small) = rw e (parts node r h small)
