-- ===== src/Session/Polled.antt =====
-- What dpa_poll of kernel/dpa_main.c does to the rings.
use dpa.Prelude.{
  ℕ, zero, suc, ◌+◌, ◌-◌, ◌≤◌, ◌<◌, ◌≡◌, ◌≢◌, ◌⊎◌, inl, inr, true, false, some, refl, sym, ap, ap₂,
  ◌∙◌, subst, if◌then◌else◌, ◌==◌, ==_iff, ==_false→ne, arith, bit_and, ltb, Bool-cases,
  ne→==_false, ltb→lt, leb, none, Bool, Option,
}
use native.Mathlib.Decide.{ℕ_discrete}
use mathlib.Core.Option.{none-ne-some, some_inj}
use dpa.Session.{
  DpaPriv, ring_flag_all, set_ring_id, last_ring, any_ready, poll_ring, poll_rings, poll,
  sync_rings, ioctl_rx_sync,
}

true-ne-false : true ≡ false → ⊥
true-ne-false e = cc

not_ltb : (a : ℕ) → ltb 0 a ≡ false → a ≡ 0
not_ltb a e = grind (arith, e)

module _ {S : Type 0} (avail : S → ℕ → ℕ) (rx_sync : ℕ → S → S × ℕ) where
  state-poll_rings :
      (do_rx i n : ℕ) (p : S × ℕ)
      → (poll_rings avail rx_sync do_rx i n p).0 ≡ sync_rings avail rx_sync i n p.0
  unfolding poll_rings poll_ring sync_rings
  state-poll_rings do_rx i zero p = refl
  state-poll_rings do_rx i (suc n) p =
      state-poll_rings do_rx (i + 1) n (poll_ring avail rx_sync do_rx i p)

  ready_ring :
      (s : S) (i n : ℕ)
      → any_ready avail rx_sync s i n ≡ true
      → (j : ℕ) × (i ≤ j) × (j < i + n) × (0 < avail s j)
  unfolding any_ready
  ready_ring s i zero e = absurd (grind (arith, e))
  ready_ring s i (suc n) e = elim (Bool-cases (ltb 0 (avail s i))) [
    | inl t ↦ (i, (omega arith), (omega arith), ltb→lt _ _ t)
    | inr t ↦
        let (j, le, lt, pos) = ready_ring s (i + 1) n (rw t at e) in
        (j, (omega arith), (omega arith), pos)
  ]

  none_ready :
      (s : S) (i n : ℕ)
      → any_ready avail rx_sync s i n ≡ false
      → (j : ℕ) → i ≤ j
      → j < i + n
      → avail s j ≡ 0
  unfolding any_ready
  none_ready s i zero e j le lt = absurd (omega (arith, le, lt))
  none_ready s i (suc n) e j le lt = elim (Bool-cases (ltb 0 (avail s i))) [
    | inl t ↦ absurd (true-ne-false (sym (rw (t) refl) ∙ e))
    | inr t ↦ elim (ℕ_discrete i j) [
      | yes p ↦ subst (λ k. avail s k ≡ 0) p (not_ltb (avail s i) t)
      | no p ↦ none_ready s (i + 1) n (rw t at e) j (grind (arith, le, p)) (omega (arith, lt))
    ]
  ]

  -- The driver's rx_sync for rings 0 to n - 1 in order
  pub sync_all : ℕ → S → S
  sync_all zero s = s
  sync_all (suc n) s = (rx_sync n (sync_all n s)).0

  sync_rings-suc :
      (i n : ℕ) (s : S)
      → sync_rings avail rx_sync i (suc n) s ≡ (rx_sync (i + n) (sync_rings avail rx_sync i n s)).0
  unfolding sync_rings
  sync_rings-suc i zero s = ap (λ k. (rx_sync k s).0) (omega arith)
  sync_rings-suc i (suc n) s =
      sync_rings-suc (i + 1) n (rx_sync i s).0
      ∙ ap (λ k. (rx_sync k (sync_rings avail rx_sync (i + 1) n (rx_sync i s).0)).0) (omega arith)

  sync_rings-all : (n : ℕ) (s : S) → sync_rings avail rx_sync 0 n s ≡ sync_all n s
  unfolding sync_all sync_rings
  sync_rings-all zero s = refl
  sync_rings-all (suc n) s =
      sync_rings-suc 0 n s ∙ ap₂ (λ k t. (rx_sync k t).0) (omega arith) (sync_rings-all n s)

  sync_rings-one : (i : ℕ) (s : S) → sync_rings avail rx_sync i 1 s ≡ (rx_sync i s).0
  unfolding sync_rings
  sync_rings-one i s = refl

  -- A field that names ring j, on an adapter of `max` rings: all, or its low twelve bits
  abbrev pub Selects : ℕ → ℕ → ℕ → Type 0
  Selects max field j = (j < max) × ((bit_and field 4096 ≢ 0) ⊎ (j ≡ bit_and field 4095))

  -- The rings that the field selects are synchronised.
  abbrev pub synced : ℕ → ℕ → S → S
  synced max field s =
      if bit_and field 4096 == 0 then (rx_sync (bit_and field 4095) s).0 else sync_all max s

-- The range of rings that dpa_set_ring_id sets
abbrev Ranges : ℕ → ℕ → DpaPriv → Type 0
Ranges max field priv =
    ((bit_and field 4096 ≡ 0)
      × (priv.rfirst ≡ bit_and field 4095)
      × (last_ring max priv ≡ bit_and field 4095 + 1)
      × (bit_and field 4095 < max))
    ⊎ ((bit_and field 4096 ≢ 0) × (priv.rfirst ≡ 0) × (last_ring max priv ≡ max))

else-eq-some {ℓ} :
    {A : Type ℓ} (b : Bool) (x : Option A) {a : A}
    → (if b then none else x) ≡ some a
    → (b ≡ false) × (x ≡ some a)
else-eq-some true x e = absurd (none-ne-some _ e)
else-eq-some false x e = (refl, e)

either-eq-some {ℓ} :
    {A : Type ℓ} (b : Bool) (x y : A) {a : A}
    → (if b then some x else some y) ≡ some a
    → ((b ≡ true) × (x ≡ a)) ⊎ ((b ≡ false) × (y ≡ a))
either-eq-some true x y e = inl (refl, some_inj.0 e)
either-eq-some false x y e = inr (refl, some_inj.0 e)

in_adapter : (max id : ℕ) → leb max id ≡ false → id < max
in_adapter max id e = grind (arith, e)

set_ring_id-Ranges :
    (max : ℕ) (old : DpaPriv) (field : ℕ) (priv : DpaPriv)
    → max ≤ 4095
    → set_ring_id max old field ≡ some priv
    → Ranges max field priv
unfolding set_ring_id last_ring
set_ring_id-Ranges max old field priv small e =
    let id = bit_and field 4095 in
    let one : DpaPriv = record { ring_id = field; rfirst = id; rlast = id + 1 } in
    let all : DpaPriv = record { ring_id = field; rfirst = 0; rlast = ring_flag_all } in
    let (t, e') = else-eq-some (leb max id) _ e in
    let inside = in_adapter max id t in
    elim (either-eq-some (bit_and field ring_flag_all == 0) one all e') [
      | inl (b, p) ↦
          let apart : (id + 1 == 4096) ≡ false =
            ne→==_false (id + 1) 4096 (λ q. absurd (omega (arith, q, inside, small))) in
          subst (Ranges max field) p
            (inl ((==_iff _ 0).0 b, refl, unfold last_ring in rw (apart) refl, inside))
      | inr (b, p) ↦ subst (Ranges max field) p (inr (==_false→ne _ 0 b, refl, refl))
    ]

module _ {S : Type 0} (avail : S → ℕ → ℕ) (rx_sync : ℕ → S → S × ℕ) (max : ℕ) (small : max ≤ 4095)
    (old : DpaPriv) (field : ℕ) (priv : DpaPriv) (set : set_ring_id max old field ≡ some priv) where
  selected : (j : ℕ) → priv.rfirst ≤ j → j < last_ring max priv → Selects avail rx_sync max field j
  selected j le lt = elim (set_ring_id-Ranges max old field priv small set) [
    | inl one ↦ (omega (arith, one, lt), inr (omega (arith, one, le, lt)))
    | inr all ↦ (omega (arith, all, lt), inl all.0)
  ]

  in_range :
      (j : ℕ) → Selects avail rx_sync max field j → (priv.rfirst ≤ j) × (j < last_ring max priv)
  in_range j (inside, which) = elim (set_ring_id-Ranges max old field priv small set) [
    | inl one ↦ elim which [
      | inl many ↦ absurd (many one.0)
      | inr e ↦ (omega (arith, one, e), omega (arith, one, e))
    ]
    | inr all ↦ (omega (arith, all), omega (arith, all, inside))
  ]

  ioctl-synced : (s : S) → ioctl_rx_sync avail rx_sync max priv s ≡ synced avail rx_sync max field s
  unfolding ioctl_rx_sync
  ioctl-synced s = elim (set_ring_id-Ranges max old field priv small set) [
    | inl one ↦
        let n : last_ring max priv - priv.rfirst ≡ 1 = omega (arith, one) in
        ap₂ (λ i k. sync_rings avail rx_sync i k s) one.1 n
        ∙ sync_rings-one avail rx_sync (bit_and field 4095) s
        ∙ rw (one.0) refl
    | inr all ↦
        let n : last_ring max priv - priv.rfirst ≡ max = omega (arith, all) in
        ap₂ (λ i k. sync_rings avail rx_sync i k s) all.1 n
        ∙ sync_rings-all avail rx_sync max s
        ∙ rw (ne→==_false (bit_and field 4096) 0 all.0) refl
  ]

  -- dpa_poll for packets, on an enabled interface of at most 4095 rings, by a file for which
  -- dpa_set_ring_id accepted a field, which names one ring or, with DPA_RING_FLAG_ALL, all. Either a
  -- ring that it names has packets, and then nothing is changed and the events are those asked for; or
  -- none of them has, and the driver's rx_sync is called for just these rings, in order. DIOCRXSYNC
  -- does the latter in any case.
  pub poll-syncs :
      (events : ℕ) (s : S)
      → bit_and events 65 ≢ 0
      → (((poll avail rx_sync max true (some priv) events s ≡ (s, bit_and events 65))
            × ((j : ℕ) × Selects avail rx_sync max field j × (0 < avail s j)))
          ⊎ (((j : ℕ) → Selects avail rx_sync max field j → avail s j ≡ 0)
              × ((poll avail rx_sync max true (some priv) events s).0
                  ≡ synced avail rx_sync max field s)))
        × (ioctl_rx_sync avail rx_sync max priv s ≡ synced avail rx_sync max field s)
  unfolding poll
  poll-syncs events s asked =
      let n = last_ring max priv - priv.rfirst in
      (
        elim (Bool-cases (any_ready avail rx_sync s priv.rfirst n)) [
          | inl r ↦
              let (j, le, lt, pos) = ready_ring avail rx_sync s priv.rfirst n r in
              inl (
                rw (ne→==_false _ 0 asked, r) refl,
                (j, selected j le (omega (arith, le, lt)), pos),
              )
          | inr r ↦ inr (
            (λ j sel.
                let (le, lt) = in_range j sel in
                none_ready avail rx_sync s priv.rfirst n r j le (omega (arith, le, lt))),
            rw (ne→==_false _ 0 asked, r)
                (state-poll_rings avail rx_sync (bit_and events 65) priv.rfirst n (s, 0)
                  ∙ unfold ioctl_rx_sync in ioctl-synced s),
          )
        ],
        ioctl-synced s,
      )
