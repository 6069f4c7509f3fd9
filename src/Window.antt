-- ===== src/Window.antt =====
-- Memory as a function of the slot's index, and the entries of a ring that are in use: k of them
-- from index h on, going round at n.
use dpa.Prelude.{
  ℕ, zero, suc, ◌+◌, ◌-◌, ◌%◌, ◌≤◌, ◌<◌, ◌≡◌, ◌≢◌, refl, ap, ap₂, sym, ◌∙◌, arith, List, [], ◌∷◌,
  ◌++◌, ◌==◌, if◌then◌else◌, ==_refl, ne→==_false, length,
}
use dpa.Prelude.Mod.{advance_twice, advance_self}
use native.Mathlib.Nat.{mod-lt, mod-eq_of_lt, add-zero}

module _ {ℓ} {A : Type ℓ} where
  abbrev pub update : (ℕ → A) → ℕ → A → ℕ → A
  update s i x j = if j == i then x else s j

  pub update_self : (s : ℕ → A) (i : ℕ) (x : A) → update s i x i ≡ x
  update_self s i x = rw (==_refl i)

  pub update_ne : (s : ℕ → A) (i j : ℕ) (x : A) → j ≢ i → update s i x j ≡ s j
  update_ne s i j x h = rw (ne→==_false j i h)

  unfoldable pub window : (ℕ → A) → ℕ → ℕ → ℕ → List A
  window s n h zero = []
  window s n h (suc k) = s h ∷ window s n ((h + 1) % n) k

  pub length-window : (s : ℕ → A) (n h k : ℕ) → length (window s n h k) ≡ k
  unfolding window
  length-window s n h zero = refl
  length-window s n h (suc k) = ap suc (length-window s n ((h + 1) % n) k)

  pub window-suc : (s : ℕ → A) (n h k : ℕ) → window s n h (suc k) ≡ s h ∷ window s n ((h + 1) % n) k
  unfolding window
  window-suc s n h k = refl

  -- A store past the window does not show in it.
  pub window-update :
      (s : ℕ → A) (n h k m i : ℕ) (x : A)
      → h < n
      → k ≤ m
      → m < n
      → i ≡ (h + m) % n
      → window (update s i x) n h k ≡ window s n h k
  unfolding window
  window-update s n h zero m i x hh hk hm e = refl
  window-update s n h (suc k) m i x hh hk hm e = ap₂ ◌∷◌ (update_ne s i h x apart) (
      window-update s n ((h + 1) % n) k (m - 1) i x (mod-lt _ (omega arith)) (omega arith)
        (omega arith) (e ∙ shift))
    where
      apart : h ≢ i
      apart p = absurd (omega (arith, advance_self h m n hh hm (sym (p ∙ e))))

      shift : (h + m) % n ≡ ((h + 1) % n + (m - 1)) % n
      shift = ap (λ t. t % n) (omega arith) ∙ sym (advance_twice h 1 (m - 1) n)

  -- A store just past the window extends it.
  pub window-store :
      (s : ℕ → A) (n h k i : ℕ) (x : A)
      → h < n
      → k < n
      → i ≡ (h + k) % n
      → window (update s i x) n h (suc k) ≡ window s n h k ++ x ∷ []
  unfolding window
  window-store s n h zero i x hh hk e =
      ap (λ y. y ∷ []) (rw (e, add-zero, mod-eq_of_lt hh) (update_self s h x))
  window-store s n h (suc k) i x hh hk e =
      ap₂ ◌∷◌ (update_ne s i h x apart)
        (window-store s n ((h + 1) % n) k i x (mod-lt _ (omega arith)) (omega arith) (e ∙ shift))
    where
      apart : h ≢ i
      apart p = absurd (omega (arith, advance_self h (suc k) n hh hk (sym (p ∙ e))))

      shift : (h + suc k) % n ≡ ((h + 1) % n + k) % n
      shift = ap (λ t. t % n) (omega arith) ∙ sym (advance_twice h 1 k n)
