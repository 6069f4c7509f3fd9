-- ===== src/Registry/Counted.antt =====
-- What is counted on an interface (kernel/dpa_main.c) between two steps of its users.
use dpa.Prelude.{
  ℕ, suc, ◌^◌, ◌≤◌, ◌<◌, ◌≡◌, ◌≢◌, ◌⊎◌, inl, inr, length, true, false, not, ◌==◌, arith, refl, sym,
  ap, ◌∙◌,
}
use dpa.Prelude.Word.{sub32, ltb_i32, ltb_i32_small}
use dpa.Window.{update_self}
use dpa.Netdev.{NetDev, is_deleting}
use dpa.Registry.{KernelState, dev_of, leave, is_last}
use dpa.Registry.Inv.{Counts}

-- The users counted are the files registered, at most one for each ring. Nobody sleeps, and the
-- interface is switched on exactly while it has users; or one process sleeps, there are no users,
-- and the interface is still switched on.
pub record Counted (d : NetDev) (files sleeping : ℕ) : Type 0 where
  pub hooked : d.hook ≢ 0
  pub rings : d.adapter.num_rx_rings ≡ length d.adapter.rx_rings
  pub small : d.adapter.num_rx_rings < 2 ^ 31
  pub counted : d.adapter.refs ≡ files
  pub bounded : files ≤ d.adapter.num_rx_rings
  pub phase :
      ((sleeping ≡ 0) × (files ≡ 0 → d.enabled ≡ false) × (files ≢ 0 → d.enabled ≡ true))
      ⊎ ((sleeping ≡ 1) × (files ≡ 0) × (d.enabled ≡ true))

-- A device with `refs` users that is otherwise like `d`.
pub recount :
    (d e : NetDev) (refs files sleeping files' sleeping' : ℕ)
    → Counted d files sleeping
    → Counts e d refs
    → refs ≡ files'
    → files' ≤ d.adapter.num_rx_rings
    → ((sleeping' ≡ 0) × (files' ≡ 0 → e.enabled ≡ false) × (files' ≢ 0 → e.enabled ≡ true))
      ⊎ ((sleeping' ≡ 1) × (files' ≡ 0) × (e.enabled ≡ true))
    → Counted e files' sleeping'
recount d e refs files sleeping files' sleeping' v c r h p = record {
  hooked = λ z. v.hooked (sym c.hook ∙ z);
  rings = omega (arith, c.same.num_rx_rings, c.rings, v.rings);
  small = omega (arith, c.same.num_rx_rings, v.small);
  counted = c.refs_eq ∙ r;
  bounded = omega (arith, c.same.num_rx_rings, h);
  phase = p;
}

-- While the interface is not being deleted, nobody sleeps.
pub awake :
    (d : NetDev) (files sleeping : ℕ)
    → Counted d files sleeping
    → is_deleting d ≡ false
    → (sleeping ≡ 0) × (files ≡ 0 → d.enabled ≡ false) × (files ≢ 0 → d.enabled ≡ true)
unfolding is_deleting
awake d files sleeping v h = elim v.phase [
  | inl p ↦ p
  | inr (one, none_left, on) ↦ let c = v.counted in ground (arith)
]

-- An interface with users is switched on and nobody sleeps.
pub some_files :
    (d : NetDev) (files sleeping : ℕ)
    → Counted d (suc files) sleeping
    → (sleeping ≡ 0) × (d.enabled ≡ true)
some_files d files sleeping v = elim v.phase [
  | inl p ↦ (p.0, p.2 (λ z. omega (arith, z)))
  | inr q ↦ absurd (omega (arith, q.1))
]

-- One process sleeps at most, and then there are no users.
pub asleep :
    (d : NetDev) (files others : ℕ) → Counted d files (suc others) → (files ≡ 0) × (others ≡ 0)
asleep d files others v = elim v.phase [
  | inl p ↦ absurd (omega (arith, p.0))
  | inr q ↦ (q.1, omega (arith, q.0))
]

pub phases :
    (d : NetDev) (files sleeping : ℕ)
    → Counted d files sleeping
    → (files ≢ 0 → d.enabled ≡ true) × (sleeping ≢ 0 → files ≡ 0)
phases d files sleeping v = elim v.phase [
  | inl p ↦ (p.2, (λ z. absurd (z p.0)))
  | inr q ↦ ((λ z. q.2), (λ z. q.1))
]

unfoldable pub left : NetDev → NetDev
left d = record d { adapter = record (d.adapter) { refs = sub32 d.adapter.refs 1 } }

module _ (i : ℕ) where
  pub leave_self : (s : KernelState) → dev_of (leave s i) i ≡ left (dev_of s i)
  unfolding leave left
  leave_self s = update_self s.net.devs i _

-- One user less.
pub left-Counted :
    (d : NetDev) (files sleeping : ℕ)
    → Counted d (suc files) sleeping
    → Counts (left d) d files × (is_last (left d) ≡ (files == 0))
unfolding left is_last
left-Counted d files sleeping v =
    let c = v.counted in
    let b = v.bounded in
    let m = v.small in
    let e : sub32 d.adapter.refs 1 ≡ files = omega arith in
    (
      record {
        refs_eq = e;
        same = record {
          magic = refl;
          excl_locks = refl;
          dev_model = refl;
          num_rx_rings = refl;
          num_rx_descs = refl;
        };
        rings = refl;
        hook = refl;
      },
      ap (λ n. not (ltb_i32 0 n)) e ∙ ground (arith, ltb_i32_small 0 files),
    )
