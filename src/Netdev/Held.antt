-- ===== src/Netdev/Held.antt =====
-- The references that dpa_acquire_netdev takes and dpa_release_netdev gives back
-- (kernel/dpa_main.c).
use dpa.Prelude.{
  ℕ, ◌+◌, ◌-◌, ◌≡◌, ◌≢◌, Bool, true, Option, none, some, arith, refl, sym, ap, ◌∙◌, ◌==◌,
  if◌then◌else◌, Bool-cases, inl, inr, ==_iff, ==_false→ne, subst,
}
use dpa.Window.{update, update_self, update_ne}
use dpa.Netdev.{
  NetDev, Net, einval, Acquired, got, failed, is_capable, dev_driver, dev_get, dev_put, module_get,
  module_put, hold_module, acquire_found, acquire_netdev, release_module, release_netdev,
}

-- The same interfaces and references.
pub record Same (s t : Net) : Type 0 where
  pub devs : (j : ℕ) → s.devs j ≡ t.devs j
  pub modules : (m : ℕ) → s.modules m ≡ t.modules m

-- An update that puts back what was there.
update_back {ℓ} :
    {A : Type ℓ} (f g : ℕ → A) (i : ℕ) (x : A)
    → x ≡ g i
    → ((j : ℕ) → j ≢ i → f j ≡ g j)
    → (j : ℕ) → update f i x j ≡ g j
update_back f g i x e h j = elim (Bool-cases (j == i)) [
  | inl p ↦ rw p (e ∙ ap g (sym ((==_iff _ _).0 p)))
  | inr p ↦ rw p (h j (==_false→ne _ _ p))
]

users_back : (d : NetDev) → record d { users = d.users + 1 - 1 } ≡ d
users_back d = ap (λ n. record d { users = n }) (omega arith)

-- One reference fewer to interface i than in a net that has one more.
dev_put-Same :
    (s t : Net) (i : ℕ)
    → t.devs i ≡ record (s.devs i) { users = (s.devs i).users + 1 }
    → ((j : ℕ) → j ≢ i → t.devs j ≡ s.devs j)
    → ((m : ℕ) → t.modules m ≡ s.modules m)
    → Same (dev_put t i) s
dev_put-Same s t i e h g = record {
  devs =
      update_back t.devs s.devs i _
        (ap (λ (d : NetDev). record d { users = d.users - 1 }) e ∙ users_back (s.devs i)) h;
  modules = g;
}

module _ (s : Net) (i : ℕ) where
  held_self : (dev_get s i).devs i ≡ record (s.devs i) { users = (s.devs i).users + 1 }
  held_self = update_self s.devs i _

  held_ne : (j : ℕ) → j ≢ i → (dev_get s i).devs j ≡ s.devs j
  held_ne j h = update_ne s.devs i j _ h

  dev_put-dev_get : Same (dev_put (dev_get s i) i) s
  dev_put-dev_get = dev_put-Same s (dev_get s i) i held_self held_ne (λ m. refl)

  drivers_held : ((dev_get s i).devs i).drivers ≡ (s.devs i).drivers
  drivers_held = ap (λ (d : NetDev). d.drivers) held_self

  module_back : (m j : ℕ) → (module_put (module_get (dev_get s i) m) m).modules j ≡ s.modules j
  module_back m =
      update_back (module_get s m).modules s.modules m _
        (ap (λ n. n - 1) (update_self s.modules m (s.modules m + 1)) ∙ omega arith)
        (λ j h. update_ne s.modules m j _ h)

  -- What the two references that were taken leave when they are given back.
  release-held :
      (m : ℕ)
      → dev_driver (s.devs i).drivers ≡ some m
      → Same (release_netdev (module_get (dev_get s i) m) i) s
  unfolding release_netdev
  release-held m e =
      subst (λ d. Same (release_module (dev_put (module_get (dev_get s i) m) i) d) s)
        (sym (ap dev_driver drivers_held ∙ e))
        (unfold release_module in record { devs = dev_put-dev_get.devs; modules = module_back m })

module _ {Name : Type 0} (find : Name → Option ℕ) (is_live : ℕ → Bool) where
  -- What a call leaves: nothing on a failure; else two references that a release gives back, to an
  -- interface of that name that has an adapter, and to a module that is not on its way out.
  abbrev pub Holds : Net → Name → Net → Acquired → Type 0
  Holds s name t (failed e) = Same t s
  Holds s name t (got i) =
      (find name ≡ some i)
      × (is_capable (s.devs i) ≡ true)
      × ((m : ℕ) × (dev_driver (s.devs i).drivers ≡ some m) × (is_live m ≡ true))
      × Same (release_netdev t i) s

  abbrev checked : Net → ℕ → Bool → Net × Acquired
  checked s i b =
      if b
      then hold_module find is_live (dev_get s i) i (dev_driver (s.devs i).drivers)
      else (dev_put (dev_get s i) i, failed einval)

  abbrev held : Net → ℕ → ℕ → Bool → Net × Acquired
  held s i m b =
      if b then (module_get (dev_get s i) m, got i) else (dev_put (dev_get s i) i, failed einval)

  module _ (s : Net) (name : Name) (i : ℕ) (named : find name ≡ some i)
      (capable : is_capable (s.devs i) ≡ true) where
    hold_module-Holds :
        (driver : Option ℕ)
        → dev_driver (s.devs i).drivers ≡ driver
        → let (t, r) = hold_module find is_live (dev_get s i) i driver in Holds s name t r
    unfolding hold_module
    hold_module-Holds none e = dev_put-dev_get s i
    hold_module-Holds (some m) e = elim (Bool-cases (is_live m)) [
      | inl live ↦
          subst (λ b. Holds s name (held s i m b).0 (held s i m b).1) (sym live)
            (named, capable, (m, e, live), release-held s i m e)
      | inr dying ↦
          subst (λ b. Holds s name (held s i m b).0 (held s i m b).1) (sym dying)
            (dev_put-dev_get s i)
    ]

  acquire_found-Holds :
      (s : Net) (name : Name) (found : Option ℕ)
      → find name ≡ found
      → let (t, r) = acquire_found find is_live s found in Holds s name t r
  unfolding acquire_found
  acquire_found-Holds s name none e = record { devs = λ j. refl; modules = λ m. refl }
  acquire_found-Holds s name (some i) e = elim (Bool-cases (is_capable (s.devs i))) [
    | inl capable ↦
        subst (λ b. Holds s name (checked s i b).0 (checked s i b).1) (sym capable)
          (hold_module-Holds s name i e capable (dev_driver (s.devs i).drivers) refl)
    | inr other ↦
        subst (λ b. Holds s name (checked s i b).0 (checked s i b).1) (sym other)
          (dev_put-dev_get s i)
  ]

  -- dpa_acquire_netdev either fails and leaves every reference as it was; or it finds the interface
  -- of that name, which has an adapter, and whose driver's module takes references, and then
  -- dpa_release_netdev leads back to where it began.
  pub acquire_netdev-Holds :
      (s : Net) (name : Name) → let (t, r) = acquire_netdev find is_live s name in Holds s name t r
  unfolding acquire_netdev
  acquire_netdev-Holds s name = acquire_found-Holds s name (find name) refl
