-- ===== src/Netdev/Hooked.antt =====
-- The adapter that a driver hooks in, its rings after a reset, and the interrupt
-- (kernel/dpa_main.c: dpa_attach, dpa_detach, dpa_reset, dpa_rx_irq).
use dpa.Prelude.{ℕ, ◌+◌, ◌%◌, ◌^◌, ◌≤◌, ◌<◌, ◌≡◌, ◌≢◌, true, false, none, arith}
use dpa.Prelude.Word.{u32, ltb_i32}
use dpa.Prelude.Mod.{mod_cases}
use dpa.Prelude.Xor.{xor_twice}
use dpa.Ring.{Kring, idx_n2k, fold_index}
use dpa.Netdev.{NetDev, DpaAdapter, is_capable, attach, detach, reset_ofs, dpa_magic}

-- What dpa_attach hooks in at an address below 4 GiB or above is recognised as an adapter, whose
-- count of users is 0; and dpa_detach leaves an interface that is not.
attach-is_capable :
    (mem : ℕ) (dadp : DpaAdapter) (d : NetDev)
    → mem ≢ 0
    → d.hook ≡ 0
    → let (d', e) = attach mem dadp d in
      (e ≡ none)
      × (is_capable d' ≡ true)
      × (d'.adapter.refs ≡ 0)
      × (d'.enabled ≡ d.enabled)
      × (is_capable (detach d') ≡ false)
unfolding attach detach is_capable
attach-is_capable mem dadp d h e = ground (arith, xor_twice (u32 mem) dpa_magic)

-- After a reset the card's index `new_cur` is the kernel's index just past what it counted.
reset_ofs-aligns :
    (kr : Kring) (new_cur : ℕ)
    → kr.nkr_num_slots ≤ 2 ^ 29
    → kr.nr_hwcur < kr.nkr_num_slots
    → kr.nr_hwavail < kr.nkr_num_slots
    → new_cur < kr.nkr_num_slots
    → idx_n2k (record kr { nkr_hwofs = reset_ofs kr new_cur }) new_cur
      ≡ (kr.nr_hwcur + kr.nr_hwavail) % kr.nkr_num_slots
unfolding idx_n2k fold_index reset_ofs ltb_i32
reset_ofs-aligns kr new_cur small a b c =
    ground (arith, mod_cases (kr.nr_hwcur + kr.nr_hwavail) kr.nkr_num_slots)
