-- ===== src/Registry/Wait.antt =====
-- The wait of dpa_reg_if (kernel/dpa_main.c) for an interface that is being deleted.
use dpa.Prelude.{
  ℕ, zero, suc, ◌≡◌, ◌↔◌, List, Option, Bool, true, false, Bool-cases, inl, inr, refl, sym, subst,
  if◌then◌else◌,
}
use dpa.Ring.{DpaSlot}
use dpa.Netdev.{Errno, NetDev, is_deleting}
use dpa.Registry.{KernelState, dev_of, wait_deleted}

module _ {Env : Type 0} (reg : Env → Bool → NetDev → NetDev × Option Errno) (buf_size : ℕ)
    (old : ℕ → List DpaSlot) (others : ℕ → KernelState → KernelState) (i : ℕ) where
  -- The interface is being deleted at each of n looks.
  abbrev pub Deleting : ℕ → KernelState → Type 0
  Deleting zero s = Unit {0}
  Deleting (suc n) s = (is_deleting (dev_of s i) ≡ true) × Deleting n (others (suc n) s)

  abbrev Waited : ℕ → KernelState → KernelState × Bool → Type 0
  Waited n s (t, true) = is_deleting (dev_of t i) ≡ false
  Waited n s (t, false) = Deleting n s

  Waited-suc :
      (n : ℕ) (s : KernelState) (r : KernelState × Bool)
      → is_deleting (dev_of s i) ≡ true
      → Waited n (others (suc n) s) r
      → Waited (suc n) s r
  Waited-suc n s (t, true) e w = w
  Waited-suc n s (t, false) e w = (e, w)

  wait_deleted-Waited :
      (n : ℕ) (s : KernelState) → Waited n s (wait_deleted reg buf_size old n others s i)
  unfolding wait_deleted
  wait_deleted-Waited zero s = tt
  wait_deleted-Waited (suc n) s =
      let later = wait_deleted reg buf_size old n others (others (suc n) s) i in
      elim (Bool-cases (is_deleting (dev_of s i))) [
        | inl e ↦
            subst (λ b. Waited (suc n) s (if b then later else (s, true))) (sym e)
              (Waited-suc n s later e (wait_deleted-Waited n (others (suc n) s)))
        | inr e ↦ subst (λ b. Waited (suc n) s (if b then later else (s, true))) (sym e) e
      ]

  by_result :
      (n : ℕ) (s : KernelState) (r : KernelState × Bool)
      → Waited n s r
      → (r.1 ≡ true → is_deleting (dev_of r.0 i) ≡ false) × (r.1 ≡ false → Deleting n s)
  by_result n s (t, true) w = ((λ e. w), (λ e. cc))
  by_result n s (t, false) w = ((λ e. cc), (λ e. w))

  no_more_tries :
      (n : ℕ) (s : KernelState)
      → Deleting n s
      → (wait_deleted reg buf_size old n others s i).1 ≡ false
  unfolding wait_deleted
  no_more_tries zero s d = refl
  no_more_tries (suc n) s (e, d) =
      let later = wait_deleted reg buf_size old n others (others (suc n) s) i in
      subst (λ b. (if b then later else (s, true)).1 ≡ false) (sym e)
        (no_more_tries n (others (suc n) s) d)

  -- Whatever other processes do while it sleeps, the loop of dpa_reg_if ends without the lock exactly
  -- when each of its n looks finds the interface being deleted; if it ends with the lock, the interface
  -- is not being deleted in the state in which the registration goes on.
  pub wait_deleted-safe :
      (n : ℕ) (s : KernelState)
      → let (t, had) = wait_deleted reg buf_size old n others s i in
        (had ≡ true → is_deleting (dev_of t i) ≡ false) × (had ≡ false ↔ Deleting n s)
  wait_deleted-safe n s =
      let (safe, all) =
        by_result n s (wait_deleted reg buf_size old n others s i) (wait_deleted-Waited n s) in
      (safe, (all, no_more_tries n s))
