-- ===== src/Registry/Kept.antt =====
-- The invariant of an interface's registration (kernel/dpa_main.c) in every order of its steps.
use dpa.Prelude.{
  ℕ, suc, ◌≤◌, ◌≡◌, ◌≢◌, ◌⊎◌, inl, inr, List, ◌∷◌, ◌++◌, length, length-append, Bool, true, false,
  Option, ◌==◌, ==_iff, ==_false→ne, arith, refl, sym, ap, ◌∙◌, subst,
}
use dpa.Prelude.Word.{add32}
use dpa.Window.{update_self}
use dpa.Ring.{DpaSlot}
use dpa.Netdev.{Errno, NetDev}
use dpa.Registry.{FilePriv, KernelState, dev_of, leave, is_last, if_free, tear_down}
use dpa.Registry.Life.{World, Step, gone, join, refuse, take_back, part, wake, Reach, here, next}
use dpa.Registry.Inv.{Switches, Counts, Facts, reg_locked-Facts}
use dpa.Registry.Counted.{
  Counted, recount, awake, some_files, asleep, phases, left, leave_self, left-Counted,
}

module _ {Env : Type 0} (reg : Env → Bool → NetDev → NetDev × Option Errno) (law : Switches reg)
    (buf_size : ℕ) (old : ℕ → List DpaSlot) (i : ℕ) where
  abbrev pub Inv : World → Type 0
  Inv w = Counted (dev_of w.state i) (length w.files) (length w.sleeping)

  -- A file that goes, at once or after a sleep.
  gone-Inv :
      (w : World) (d : NetDev) (p : FilePriv) (s : KernelState) (b : Bool)
      → dev_of s i ≡ d
      → b ≡ (length w.files == 0)
      → length w.sleeping ≡ 0
      → d.enabled ≡ true
      → ((sleeping : ℕ)
          → ((sleeping ≡ 0)
              × (length w.files ≡ 0 → d.enabled ≡ false)
              × (length w.files ≢ 0 → d.enabled ≡ true))
            ⊎ ((sleeping ≡ 1) × (length w.files ≡ 0) × (d.enabled ≡ true))
          → Counted d (length w.files) sleeping)
      → Inv (gone reg buf_size old i w s p b)
  gone-Inv w d p s true e last none_asleep on counted =
      subst (λ x. Counted x (length w.files) (suc (length w.sleeping))) (sym e)
        (counted (suc (length w.sleeping))
          (inr (omega (arith, none_asleep), (==_iff _ _).0 (sym last), on)))
  gone-Inv w d p s false e last none_asleep on counted =
      unfold if_free in
      subst (λ x. Counted x (length w.files) (length w.sleeping)) (sym e)
        (counted (length w.sleeping)
          (inl (none_asleep, (λ z. absurd (==_false→ne _ _ (sym last) z)), (λ z. on))))

  leave-Inv :
      (w : World) (p : FilePriv) (s : KernelState)
      → Counted (dev_of s i) (suc (length w.files)) (length w.sleeping)
      → length w.sleeping ≡ 0
      → (dev_of s i).enabled ≡ true
      → Inv (gone reg buf_size old i w (leave s i) p (is_last (dev_of (leave s i) i)))
  leave-Inv w p s v none_asleep on =
      let n = length w.files in
      let (c, last) = left-Counted (dev_of s i) n (length w.sleeping) v in
      let fewer : n ≤ (dev_of s i).adapter.num_rx_rings = omega (arith, v.bounded) in
      gone-Inv w (left (dev_of s i)) p (leave s i) _ (leave_self i s)
        (ap is_last (leave_self i s) ∙ last) none_asleep (unfold left in on)
        (λ sleeping phase.
          recount (dev_of s i) (left (dev_of s i)) n (suc n) (length w.sleeping) n sleeping v c refl
            fewer phase)

  length_without :
      (before after : List FilePriv) (p : FilePriv)
      → length (before ++ p ∷ after) ≡ suc (length (before ++ after))
  length_without before after p =
      omega (arith, length-append before (p ∷ after), length-append before after)

  -- The flag alone is other.
  switched : (d : NetDev) → Counts (record d { enabled = false }) d d.adapter.refs
  switched d = record {
    refs_eq = refl;
    same = record {
      magic = refl;
      excl_locks = refl;
      dev_model = refl;
      num_rx_rings = refl;
      num_rx_descs = refl;
    };
    rings = refl;
    hook = refl;
  }

  torn :
      (env : Env) (s : KernelState) (p : FilePriv)
      → (dev_of s i).hook ≢ 0
      → dev_of (if_free (tear_down reg env s i) p.dif) i ≡ record (dev_of s i) { enabled = false }
  unfolding if_free tear_down
  torn env s p hooked =
      update_self s.net.devs i (reg env false (dev_of s i)).0
      ∙ law.switch env false (dev_of s i) hooked

  Step-Inv : (w t : World) → Inv w → Step reg buf_size old i w t → Inv t
  Step-Inv w _ v (join env queue_id p s open_ e) =
      let d = dev_of w.state i in
      let f =
        subst (Facts reg law buf_size old i d) e
          (reg_locked-Facts reg law buf_size old i env w.state queue_id v.hooked v.rings) in
      let n = length w.files in
      let p = awake d n (length w.sleeping) v open_ in
      recount d (dev_of s i) (add32 d.adapter.refs 1) n (length w.sleeping) (suc n)
        (length w.sleeping) v f.1 (omega (arith, v.counted, v.bounded, v.small))
        (grind (arith, f.0, v.counted, v.bounded))
        (inl (p.0, (λ z. absurd (omega (arith, z))), (λ z. f.2)))
  Step-Inv w _ v (refuse env queue_id x s open_ e) =
      let d = dev_of w.state i in
      let f =
        subst (Facts reg law buf_size old i d) e
          (reg_locked-Facts reg law buf_size old i env w.state queue_id v.hooked v.rings) in
      let n = length w.files in
      let p = awake d n (length w.sleeping) v open_ in
      recount d (dev_of s i) d.adapter.refs n (length w.sleeping) n (length w.sleeping) v f.0
        v.counted v.bounded (inl (p.0, (λ z. f.1 ∙ p.1 z), (λ z. f.1 ∙ p.2 z)))
  Step-Inv w _ v (take_back env queue_id x p s open_ e) =
      let d = dev_of w.state i in
      let f =
        subst (Facts reg law buf_size old i d) e
          (reg_locked-Facts reg law buf_size old i env w.state queue_id v.hooked v.rings) in
      let n = length w.files in
      let q = awake d n (length w.sleeping) v open_ in
      leave-Inv w p s
        (recount d (dev_of s i) (add32 d.adapter.refs 1) n (length w.sleeping) (suc n)
          (length w.sleeping) v f.1 (omega (arith, v.counted, v.bounded, v.small))
          (grind (arith, f.0, v.counted, v.bounded))
          (inl (q.0, (λ z. absurd (omega (arith, z))), (λ z. f.2))))
        q.0 f.2
  Step-Inv w _ v (part before after p e) =
      let d = dev_of w.state i in
      let w' : World = record w { files = before ++ after } in
      let n : length w.files ≡ suc (length (before ++ after)) =
        ap length e ∙ length_without before after p in
      let v' = subst (λ k. Counted d k (length w.sleeping)) n v in
      let q = some_files d (length (before ++ after)) (length w.sleeping) v' in
      leave-Inv w' p w.state v' q.0 q.1
  Step-Inv w _ v (wake env before after p e) =
      let d = dev_of w.state i in
      let n : length w.sleeping ≡ suc (length (before ++ after)) =
        ap length e ∙ length_without before after p in
      let (none_left, alone) =
        asleep d (length w.files) (length (before ++ after))
          (subst (Counted d (length w.files)) n v) in
      subst (λ x. Counted x (length w.files) (length (before ++ after)))
        (sym (torn env w.state p v.hooked))
        (recount d (record d { enabled = false }) d.adapter.refs (length w.files)
          (length w.sleeping) (length w.files) (length (before ++ after)) v (switched d) v.counted
          v.bounded (inl (alone, (λ z. refl), (λ z. absurd (z none_left)))))

  Reach-Inv : {s t : World} → Inv s → Reach reg buf_size old i s t → Inv t
  Reach-Inv v here = v
  Reach-Inv v (next {s} {t} r step) = Step-Inv s t (Reach-Inv v r) step

  -- With a driver that switches when it is asked to: in every state that registrations, failures and
  -- departures lead to from a sound one, in whatever order they take the lock, the count of users is the
  -- number of registered files, at most one for each ring; while there are files the interface is
  -- switched on; and while a process is about to free the rings there are no files.
  pub Reach-counts :
      {s t : World}
      → Inv s
      → Reach reg buf_size old i s t
      → ((dev_of t.state i).adapter.refs ≡ length t.files)
        × (length t.files ≤ (dev_of t.state i).adapter.num_rx_rings)
        × (length t.files ≢ 0 → (dev_of t.state i).enabled ≡ true)
        × (length t.sleeping ≢ 0 → length t.files ≡ 0)
  Reach-counts {s} {t} v r =
      let u = Reach-Inv v r in
      let (on, none_left) = phases (dev_of t.state i) (length t.files) (length t.sleeping) u in
      (u.counted, u.bounded, on, none_left)
