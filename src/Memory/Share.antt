-- ===== src/Memory/Share.antt =====
-- What dpa_new_if (kernel/dpa_mem.c) gives to a process, and what it counts.
use dpa.Prelude.{
  ℕ, ◌≡◌, ◌≢◌, List, [], Bool, true, false, Option, none, some, if◌then◌else◌, ◌==◌, Bool-cases,
  inl, inr, ==_false→ne, length, arith, refl, sym, subst,
}
use dpa.Prelude.Word.{add32, ltb_i32}
use dpa.Ring.{DpaSlot}
use dpa.Netdev.{DpaAdapter, RxRing}
use dpa.Pool.{ObjPool, obj_malloc}
use dpa.Memory.{
  MemAllocator, Rings, NewIf, if_size, rings_from, clean_up, finish, with_rings, with_dif, new_if,
}
use dpa.Memory.Built.{SameAdapter, AllFresh, Built, rings_from-Built}

module _ (buf_size : ℕ) (old : ℕ → List DpaSlot) where
  -- What a call leaves: after a failure the same users; else one more, and for the first user fresh
  -- rings, for another the rings and the pools of rings and buffers as they were.
  abbrev pub Shares : MemAllocator → DpaAdapter → NewIf → Type 0
  Shares a d t =
      SameAdapter t.adapter d
      × (length t.adapter.rx_rings ≡ length d.rx_rings)
      × (t.dif ≡ 0 → t.adapter.refs ≡ d.refs)
      × (t.dif ≢ 0 → t.adapter.refs ≡ add32 d.refs 1)
      × (t.dif ≢ 0
          → ltb_i32 0 d.refs ≡ false
          → AllFresh buf_size old d.num_rx_descs 0 d.num_rx_rings t.adapter.rx_rings)
      × (ltb_i32 0 d.refs ≡ true
          → (t.adapter.rx_rings ≡ d.rx_rings)
            × (t.pools.ring_pool ≡ a.ring_pool)
            × (t.pools.buf_pool ≡ a.buf_pool))

  abbrev Outcome : MemAllocator → DpaAdapter → Option NewIf → Type 0
  Outcome a d none = Unit {0}
  Outcome a d (some t) = Shares a d t

  same_adapter :
      (d : DpaAdapter) (refs : ℕ) (rings : List RxRing)
      → SameAdapter (record d { refs = refs; rx_rings = rings }) d
  same_adapter d refs rings = record {
    magic = refl;
    excl_locks = refl;
    dev_model = refl;
    num_rx_rings = refl;
    num_rx_descs = refl;
  }

  -- The results by the outcome of the tests.
  abbrev by_end : DpaAdapter → ℕ → Rings → Bool → Option NewIf
  by_end d dif r c =
      if c
      then some
          (finish buf_size old r.pools (record d { rx_rings = r.rings; refs = add32 d.refs 1 }) dif)
      else some (clean_up buf_size old d dif r)

  abbrev by_users : MemAllocator → DpaAdapter → ObjPool → ℕ → Bool → Option NewIf
  by_users a d p dif c =
      let a' = record a { if_pool = p } in
      if c
      then some (finish buf_size old a' (record d { refs = add32 d.refs 1 }) dif)
      else with_rings buf_size old d dif
          (rings_from buf_size old d.num_rx_descs d.num_rx_rings 0 a' d.rx_rings)

  abbrev by_dif : MemAllocator → DpaAdapter → ObjPool → ℕ → Bool → Option NewIf
  by_dif a d p dif c =
      let a' = record a { if_pool = p } in
      if c
      then some (record { pools = a'; adapter = d; dif = 0; ring_ofs = [] })
      else by_users a d p dif (ltb_i32 0 d.refs)

  with_rings-Shares :
      (a : MemAllocator) (d : DpaAdapter) (dif : ℕ) (r : Option Rings)
      → ltb_i32 0 d.refs ≡ false
      → dif ≢ 0
      → Built buf_size old d.num_rx_descs 0 d.num_rx_rings d.rx_rings r
      → Outcome a d (with_rings buf_size old d dif r)
  unfolding with_rings finish clean_up
  with_rings-Shares a d dif none first h b = tt
  with_rings-Shares a d dif (some r) first h b = elim (Bool-cases r.is_ok) [
    | inl ok ↦
        subst (λ c. Outcome a d (by_end d dif r c)) (sym ok)
          (same_adapter d _ _, b.0, (λ e. absurd (h e)), (λ e. refl), (λ e f. b.2 ok), (λ e. cc))
    | inr bad ↦
        subst (λ c. Outcome a d (by_end d dif r c)) (sym bad)
          (
            same_adapter d _ _,
            b.0,
            (λ e. refl),
            (λ e. absurd (e refl)),
            (λ e f. absurd (e refl)),
            (λ e. cc),
          )
  ]

  with_dif-Shares :
      (a : MemAllocator) (d : DpaAdapter) (got : Option (ObjPool × ℕ))
      → d.num_rx_rings ≡ length d.rx_rings
      → Outcome a d (with_dif buf_size old a d got)
  unfolding with_dif finish
  with_dif-Shares a d none e = tt
  with_dif-Shares a d (some (p, dif)) e = elim (Bool-cases (dif == 0)) [
    | inl no_dif ↦
        subst (λ c. Outcome a d (by_dif a d p dif c)) (sym no_dif)
          (
            same_adapter d _ _,
            refl,
            (λ e. refl),
            (λ e. absurd (e refl)),
            (λ e f. absurd (e refl)),
            (λ e. (refl, refl, refl)),
          )
    | inr has_dif ↦
        subst (λ c. Outcome a d (by_dif a d p dif c)) (sym has_dif)
          (elim (Bool-cases (ltb_i32 0 d.refs)) [
            | inl shared ↦
                subst (λ c. Outcome a d (by_users a d p dif c)) (sym shared)
                  (
                    same_adapter d _ _,
                    refl,
                    (λ e. absurd (==_false→ne _ _ has_dif e)),
                    (λ e. refl),
                    (λ e f. cc),
                    (λ e. (refl, refl, refl)),
                  )
            | inr first ↦
                subst (λ c. Outcome a d (by_users a d p dif c)) (sym first)
                  (with_rings-Shares a d dif _ first (==_false→ne _ _ has_dif) (
                    rings_from-Built buf_size old d.num_rx_descs d.num_rx_rings 0
                      (record a { if_pool = p }) d.rx_rings (omega arith)))
          ])
  ]

  pub made-Shares :
      (a : MemAllocator) (d : DpaAdapter) {t : NewIf}
      → d.num_rx_rings ≡ length d.rx_rings
      → new_if buf_size old a d ≡ some t
      → Shares a d t
  unfolding new_if
  made-Shares a d {t} e h =
      subst (Outcome a d) h (with_dif-Shares a d (obj_malloc a.if_pool (if_size d.num_rx_rings)) e)
