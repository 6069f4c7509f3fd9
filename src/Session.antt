-- ===== src/Session.antt =====
-- kernel/dpa_main.c: what one open file of /dev/dpa may see of an adapter: the rings it selected
-- (dpa_set_ring_id), dpa_poll, and DIOCRXSYNC of dpa_ioctl. The driver's rx_sync and the rings
-- themselves are arguments. Wait queues and locks are left out.
pub mod Polled
mod Tests
use dpa.Prelude.{
  ℕ, zero, suc, ◌+◌, ◌-◌, ◌%◌, ◌^◌, ◌≤◌, ◌<◌, ◌≡◌, List, [], ◌∷◌, Bool, true, false, not, ◌&&◌,
  ◌||◌, Option, none, some, bit_and, bit_or, if◌then◌else◌, ◌==◌, ltb, leb, min, arith,
}

-- struct dpa_priv, the part that names rings
pub record DpaPriv : Type 0 where
  pub ring_id : ℕ
  pub rfirst : ℕ
  pub rlast : ℕ

abbrev pub ring_flag_all : ℕ
ring_flag_all = 4096

-- dpa_set_ring_id on an adapter of `max` rings: `none` is -EINVAL.
unfoldable pub set_ring_id : ℕ → DpaPriv → ℕ → Option DpaPriv
set_ring_id max priv field =
    let ring_id = bit_and field 4095 in
    if leb max ring_id
    then none
    else if bit_and field ring_flag_all == 0
    then some (record { ring_id = field; rfirst = ring_id; rlast = ring_id + 1 })
    else some (record { ring_id = field; rfirst = 0; rlast = ring_flag_all })

-- The end of the range of rings: `rlast`, or all of the adapter's.
unfoldable pub last_ring : ℕ → DpaPriv → ℕ
last_ring max priv = if priv.rlast == ring_flag_all then max else priv.rlast

module _ {S : Type 0} (avail : S → ℕ → ℕ) (rx_sync : ℕ → S → S × ℕ) where
  -- `for (i = priv->rfirst; do_rx && i < max_rx; i++)`, with n rings to go.
  unfoldable pub any_ready : S → ℕ → ℕ → Bool
  any_ready s i zero = false
  any_ready s i (suc n) = if ltb 0 (avail s i) then true else any_ready s (i + 1) n

  -- One ring of the second loop of dpa_poll, with the events so far.
  unfoldable pub poll_ring : ℕ → ℕ → S × ℕ → S × ℕ
  poll_ring do_rx i (s, revents) =
      let (s', r) = rx_sync i s in
      let failed = if r == 0 then revents else bit_or revents 8 in
      (s', (if ltb 0 (avail s' i) then bit_or failed do_rx else failed))

  unfoldable pub poll_rings : ℕ → ℕ → ℕ → S × ℕ → S × ℕ
  poll_rings do_rx i zero p = p
  poll_rings do_rx i (suc n) p = poll_rings do_rx (i + 1) n (poll_ring do_rx i p)

  -- dpa_poll on an adapter of `max` rings; POLLIN | POLLRDNORM is 65, POLLERR is 8.
  unfoldable pub poll : ℕ → Bool → Option DpaPriv → ℕ → S → S × ℕ
  poll max enabled none events s = (s, 8)
  poll max enabled (some priv) events s =
      let do_rx = bit_and events 65 in
      let n = last_ring max priv - priv.rfirst in
      if not enabled
      then (s, 8)
      else if do_rx == 0
      then (s, 0)
      else if any_ready s priv.rfirst n
      then (s, do_rx)
      else poll_rings do_rx priv.rfirst n (s, 0)

  -- The loop of DIOCRXSYNC.
  unfoldable pub sync_rings : ℕ → ℕ → S → S
  sync_rings i zero s = s
  sync_rings i (suc n) s = sync_rings (i + 1) n (rx_sync i s).0

  unfoldable pub ioctl_rx_sync : ℕ → DpaPriv → S → S
  ioctl_rx_sync max priv s = sync_rings priv.rfirst (last_ring max priv - priv.rfirst) s
