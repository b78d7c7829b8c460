-- ===== src/Protocol/Codes.antt =====
-- The operation and priority bytes of a request.
use atlas_io.Base.{ℕ, ◌≤◌, ◌≡◌, ◌↔◌, refl, none, some, arith}
use atlas_io.Protocol.{
  IoOp, «open», IoPriority, low, op_code, priority_code, op_from_u8, priority_from_u8, new_request,
  io_op, io_priority,
}

op_from_u8→eq : (v : ℕ) (op : IoOp) → op_from_u8 v ≡ some op → v ≡ op_code op
unfolding op_from_u8
op_from_u8→eq v «open» h = ground arith
op_from_u8→eq v op h = ground arith

-- A byte is decoded exactly to the operation whose code it is.
pub op_from_u8_iff : (v : ℕ) (op : IoOp) → (op_from_u8 v ≡ some op) ↔ (v ≡ op_code op)
unfolding op_from_u8
op_from_u8_iff v «open» = ground arith
op_from_u8_iff v op = ground arith

-- A byte is decoded exactly to the priority whose code it is.
pub priority_from_u8_iff :
    (v : ℕ) (p : IoPriority) → (priority_from_u8 v ≡ some p) ↔ (v ≡ priority_code p)
unfolding priority_from_u8
priority_from_u8_iff v low = ground arith
priority_from_u8_iff v p = ground arith

-- A new request gives back the operation and the priority that it was made with.
pub io_op-new_request :
    (id : ℕ) (op : IoOp) (p : IoPriority)
    → (io_op (new_request id op p) ≡ some op) × (io_priority (new_request id op p) ≡ some p)
unfolding io_op io_priority new_request
io_op-new_request id op p =
    ((op_from_u8_iff (op_code op) op).1 refl, (priority_from_u8_iff (priority_code p) p).1 refl)

-- The bytes from 5 on, and they alone, name no operation; those from 3 on name no priority.
pub from_u8_none :
    (v : ℕ) → ((op_from_u8 v ≡ none) ↔ (5 ≤ v)) × ((priority_from_u8 v ≡ none) ↔ (3 ≤ v))
unfolding op_from_u8 priority_from_u8
from_u8_none v = ground arith
