-- ===== src/Launch/Runs.antt =====
-- The CPUs that dup_create_threads gives (duplicator/duplicator.c).
use dpa.Prelude.{
  ℕ, zero, suc, ◌+◌, ◌^◌, ◌≤◌, ◌<◌, ◌≡◌, ◌⊎◌, inl, inr, refl, List, [], ◌∷◌, Bool, true, false,
  Option, none, some, arith, ◌==◌, if◌then◌else◌, length, Bool-cases, ap, subst, sym,
}
use dpa.Prelude.Word.{ltb_i32, add32}
use dpa.Options.{DupOptions, minus_one}
use dpa.Launch.{ProcCb, Targs, ThreadCalls, pin, registered_as, create_thread, create_from}

-- The CPUs of the threads whose descriptor is open, in order
pub cpus : List Targs → List ℕ
cpus [] = []
cpus (t ∷ ts) = let rest = cpus ts in if t.fd == minus_one then rest else t.affinity ∷ rest

-- n numbers from a on
pub count_from : ℕ → ℕ → List ℕ
count_from a zero = []
count_from a (suc n) = a ∷ count_from (a + 1) n

abbrev pub IsRun : ℕ → ℕ → List ℕ → Type 0
IsRun a n xs = (xs ≡ count_from a (length xs)) × (length xs ≤ n)

cons-IsRun : (a n : ℕ) (xs : List ℕ) → IsRun (a + 1) n xs → IsRun a (suc n) (a ∷ xs)
unfolding count_from
cons-IsRun a n xs r = (ap (λ t. a ∷ t) r.0, omega (arith, r.1))

below-end : (a e : ℕ) → a ≤ e → e < 2 ^ 31 → ltb_i32 e a ≡ false
unfolding ltb_i32
below-end a e le small = ground (arith, le, small)

-- One thread: no descriptor and the same CPU next, or the CPU a and a + 1 next
abbrev Pins : ℕ → Targs × ℕ × Bool → Type 0
Pins a r =
    ((r.0.fd ≡ minus_one) × (r.1 ≡ a))
    ⊎ (((r.0.fd == minus_one) ≡ false) × (r.0.affinity ≡ a) × (r.1 ≡ a + 1))

cpus-IsRun :
    (a n : ℕ) (r : Targs × ℕ × Bool) (rest : List Targs)
    → Pins a r
    → (r.1 ≤ a + 1 → IsRun r.1 n (cpus rest))
    → IsRun a (suc n) (cpus (r.0 ∷ rest))
unfolding cpus
cpus-IsRun a n r rest (inl (closed, same)) ih =
    let run : IsRun a n (cpus rest) =
      subst (λ t. IsRun t n (cpus rest)) same (ih (omega (arith, same))) in
    rw (closed) (run.0, omega (arith, run.1))
cpus-IsRun a n r rest (inr (opened, cpu, next)) ih =
    let run : IsRun (a + 1) n (cpus rest) =
      subst (λ t. IsRun t n (cpus rest)) next (ih (omega (arith, next))) in
    rw (opened, cpu) (cons-IsRun a n (cpus rest) run)

module _ {S : Type 0} (opt : DupOptions S) (dpaaddr : ℕ) (shm : List (Option ℕ)) (proc_cb : ProcCb)
    (calls : ℕ → ThreadCalls) where
  registered_as-fd :
      (c : ThreadCalls) (t : Targs) (x : Option ℕ)
      → ((registered_as opt dpaaddr shm proc_cb calls c t x).0.fd ≡ t.fd)
        × ((registered_as opt dpaaddr shm proc_cb calls c t x).0.affinity ≡ t.affinity)
  unfolding registered_as
  registered_as-fd c t none = (refl, refl)
  registered_as-fd c t (some offset) = (refl, refl)

  module _ (asked : opt.affinity_flag ≡ true) (small : opt.affinity_end < 2 ^ 31) where
    pin-next : (a : ℕ) → a ≤ opt.affinity_end → pin opt dpaaddr shm proc_cb calls a ≡ (a, a + 1)
    unfolding pin
    pin-next a le =
        let wraps : add32 a 1 ≡ a + 1 = omega (arith, le, small) in
        rw (asked, below-end a opt.affinity_end le small, wraps) refl

    create_thread-Pins :
        (i a : ℕ) → a ≤ opt.affinity_end → Pins a (create_thread opt dpaaddr shm proc_cb calls i a)
    unfolding create_thread
    create_thread-Pins i a le = elim (Bool-cases ((calls i).opened == minus_one)) [
      | inl e ↦ rw (e) (inl (refl, refl))
      | inr e ↦
          rw (e, pin-next a le)
            (let r = registered_as-fd (calls i) _ (calls i).registered in
              inr (subst (λ t. (t == minus_one) ≡ false) (sym r.0) e, r.1, refl))
    ]

    pub create_from-IsRun :
        (n i a : ℕ)
        → a + n ≤ opt.affinity_end + 1
        → IsRun a n (cpus (create_from opt dpaaddr shm proc_cb calls n i a).0)
    unfolding create_from count_from cpus
    create_from-IsRun zero i a fits = (refl, omega arith)
    create_from-IsRun (suc n) i a fits =
        let r = create_thread opt dpaaddr shm proc_cb calls i a in
        cpus-IsRun a n r (create_from opt dpaaddr shm proc_cb calls n (i + 1) r.1).0
          (create_thread-Pins i a (omega (arith, fits)))
          (λ low. create_from-IsRun n (i + 1) r.1 (omega (arith, low, fits)))
