-- ===== src/Options/Affinity.antt =====
-- What dup_set_affinity of duplicator/options.c decides.
use dpa.Prelude.{
  Bool-cases, subst, not, sym, ==_iff, ==_false→ne, ℕ, ◌+◌, ◌-◌, ◌^◌, ◌≤◌, ◌<◌, ◌≡◌, ◌⊎◌, inl, inr,
  refl, ◌≢◌, true, false, Option, none, some, arith, ◌==◌, if◌then◌else◌,
}
use dpa.Prelude.Word.{sub32, add32, ltb_i32}
use dpa.Options.{int_max, set_affinity}

-- What dup_set_affinity decides: n CPUs from `first` on, or a range that is too short, or too few CPUs.
abbrev pub Decides : ℕ → ℕ → ℕ → ℕ → Option (ℕ × ℕ) → Type 0
Decides ncpus n first last none =
    (ncpus < first + n) ⊎ ((last ≢ int_max) × ((ncpus ≤ last) ⊎ (last + 1 < first + n)))
Decides ncpus n first last (some r) =
    (r.0 ≡ first)
    × (r.1 + 1 ≡ first + n)
    × (first + n ≤ ncpus)
    × ((last ≡ int_max) ⊎ ((first + n ≤ last + 1) × (last < ncpus)))

less : (a b : ℕ) → a < 2 ^ 31 → b < 2 ^ 31 → ltb_i32 a b ≡ true → a < b
unfolding ltb_i32
less a b x y e = ground (arith, x, y, e)

not_less : (a b : ℕ) → a < 2 ^ 31 → b < 2 ^ 31 → ltb_i32 a b ≡ false → b ≤ a
unfolding ltb_i32
not_less a b x y e = ground (arith, x, y, e)

span :
    (last first : ℕ) → first ≤ last → last < int_max → add32 (sub32 last first) 1 ≡ last + 1 - first
span last first le top = omega (arith, le, top)

last_cpu : (first n : ℕ) → 1 ≤ n → first + n ≤ 2 ^ 31 → sub32 (add32 first n) 1 ≡ first + n - 1
last_cpu first n some_queue fits = omega (arith, some_queue, fits)

abbrev Cpus : ℕ → ℕ → ℕ → ℕ → Option (ℕ × ℕ) → Type 0
Cpus ncpus n first last none = (ncpus < first + n) ⊎ ((ncpus ≤ last) ⊎ (last + 1 < first + n))
Cpus ncpus n first last (some r) =
    (r.0 ≡ first)
    × (r.1 + 1 ≡ first + n)
    × (first + n ≤ ncpus)
    × (first + n ≤ last + 1)
    × (last < ncpus)

-- What is left once the end of the range is known
abbrev chosen : ℕ → ℕ → ℕ → ℕ → Option (ℕ × ℕ)
chosen ncpus n first last =
    if ltb_i32 ncpus n
    then none
    else if not (ltb_i32 last ncpus)
    then none
    else if ltb_i32 (add32 (sub32 last first) 1) n
    then none
    else some (first, sub32 (add32 first n) 1)

module _ (ncpus n first last : ℕ) (some_queue : 1 ≤ n) (few : n ≤ 65535) (small : ncpus < 2 ^ 31)
    (le : first ≤ last) (top : last ≤ int_max) (fits : first + n ≤ 2 ^ 31) where
  choose : Cpus ncpus n first last (chosen ncpus n first last)
  choose = elim (Bool-cases (ltb_i32 ncpus n)) [
    | inl e ↦ rw (e) (inl (omega (arith, less ncpus n small (omega (arith, few)) e)))
    | inr e ↦ elim (Bool-cases (ltb_i32 last ncpus)) [
      | inr f ↦ rw (e, f) (inr (inl (not_less last ncpus (omega (arith, top)) small f)))
      | inl f ↦
          let under = less last ncpus (omega (arith, top)) small f in
          let len = span last first le (omega (arith, under, small)) in
          elim (Bool-cases (ltb_i32 (last + 1 - first) n)) [
            | inl g ↦
                let short =
                  less (last + 1 - first) n (omega (arith, under, small)) (omega (arith, few)) g in
                rw (e, f, len, g) (inr (inr (omega (arith, short))))
            | inr g ↦
                let long =
                  not_less (last + 1 - first) n (omega (arith, under, small)) (omega (arith, few))
                    g in
                rw (e, f, len, g, last_cpu first n some_queue fits)
                  (
                    refl,
                    omega (arith, some_queue),
                    omega (arith, long, under),
                    omega (arith, long, le),
                    under,
                  )
          ]
    ]
  ]

in_range : (x : ℕ) → x < 2 ^ 31 → ltb_i32 x 0 ≡ false
unfolding ltb_i32
in_range x small = ground (arith, small)

open_end :
    (ncpus n first last : ℕ)
    → last ≡ int_max
    → 1 ≤ n
    → first + n ≤ 2 ^ 31
    → (r : Option (ℕ × ℕ)) → Cpus ncpus n first (first + n - 1) r
    → Decides ncpus n first last r
open_end ncpus n first last e some_queue fits none c = grind (arith, c, some_queue)
open_end ncpus n first last e some_queue fits (some r) c = (c.0, c.1, c.2, inl e)

given_end :
    (ncpus n first last : ℕ)
    → last ≢ int_max
    → (r : Option (ℕ × ℕ)) → Cpus ncpus n first last r
    → Decides ncpus n first last r
given_end ncpus n first last ne none c = elim c [ inl x ↦ inl x | inr x ↦ inr (ne, x) ]
given_end ncpus n first last ne (some r) c = (c.0, c.1, c.2, inr (c.3, c.4))

-- dup_set_affinity, for a range that dup_get_opt lets through, 1 to 65535 queues, and CPUs whose
-- numbers an int32_t holds, and where first CPU and number of queues together do not pass 2 ^ 31: it
-- gives the queues the CPUs from the first on, one each, exactly when the computer has so many and the
-- range, where its end is given, is long enough and in the computer.
pub set_affinity-Decides :
    (ncpus n first last : ℕ)
    → 1 ≤ n
    → n ≤ 65535
    → ncpus < 2 ^ 31
    → first ≤ last
    → last ≤ int_max
    → first + n ≤ 2 ^ 31
    → Decides ncpus n first last (set_affinity ncpus n first last)
unfolding set_affinity
set_affinity-Decides ncpus n first last some_queue few small le top fits =
    rw (in_range first (omega (arith, some_queue, fits)), in_range last (omega (arith, top)))
      (elim (Bool-cases (last == int_max)) [
        | inl e ↦
            let p = (==_iff last int_max).0 e in
            rw (e) (
              subst (λ l. Decides ncpus n first last (chosen ncpus n first l))
                (sym (last_cpu first n some_queue fits))
                (open_end ncpus n first last p some_queue fits _ (
                  choose ncpus n first (first + n - 1) some_queue few small
                    (omega (arith, some_queue)) (omega (arith, fits)) fits)))
        | inr e ↦ rw (e) (
            given_end ncpus n first last (==_false→ne last int_max e) _
              (choose ncpus n first last some_queue few small le top fits))
      ])
