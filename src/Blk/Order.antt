-- ===== src/Blk/Order.antt =====
-- IN_ORDER (kernel/blk_drv/blk.h) is a strict order.
use liha_linux.Base.{arith, false, true, ◌≡◌}
use liha_linux.Blk.{Request, in_order}

pub in_order_trans :
    (a b c : Request) → in_order a b ≡ true → in_order b c ≡ true → in_order a c ≡ true
unfolding in_order
in_order_trans a b c p q = ground arith

pub in_order_asym : (a b : Request) → in_order a b ≡ true → in_order b a ≡ false
unfolding in_order
in_order_asym a b p = ground arith
