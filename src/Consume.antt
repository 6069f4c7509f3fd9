-- ===== src/Consume.antt =====
-- lib/dup_intf.c, dup_loop: a consumer takes packets from one output queue of the duplicator. What
-- the callback does is a function of a state of the caller's.
pub mod Delivery
mod Tests
use dpa.Prelude.{ℕ, zero, suc, ◌==◌, if◌then◌else◌}
use dpa.Queue.{DupQueue, read_avali, read_adv, slot_idx_next}
use dpa.Forward.{DupSlot}

-- The queue with its slots, and the local `ridx`.
pub record Reader : Type 0 where
  pub queue : DupQueue
  pub slots : ℕ → DupSlot
  pub ridx : ℕ

module _ {U : Type 0} (callback : DupSlot → U → U) where
  -- `for (i = 0; i < ravali; i++)`, with n slots to go.
  unfoldable pub read_slots : DupQueue → (ℕ → DupSlot) → ℕ → ℕ → U → ℕ × U
  read_slots q slots zero ridx u = (ridx, u)
  read_slots q slots (suc n) ridx u =
      read_slots q slots n (slot_idx_next q ridx) (callback (slots ridx) u)

  -- One turn of `while (1)`.
  unfoldable pub loop_turn : Reader → U → Reader × U
  loop_turn r u =
      let n = read_avali r.queue in
      let end_ = read_slots r.queue r.slots n r.ridx u in
      if n == 0 then (r, u) else (record r { queue = read_adv r.queue n; ridx = end_.0 }, end_.1)
