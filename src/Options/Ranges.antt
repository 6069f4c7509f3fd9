-- ===== src/Options/Ranges.antt =====
-- What dup_get_opt of duplicator/options.c lets through.
use dpa.Prelude.{
  Bool-cases, subst, ℕ, ◌≤◌, ◌<◌, ◌≡◌, ◌⊎◌, inl, inr, refl, List, [], ◌∷◌, Bool, true, false,
  Option, none, some, arith, leb, ◌||◌, if◌then◌else◌,
}
use dpa.Prelude.Word.{ltb_i32}
use dpa.Options.{
  ℤ, pos, negsuc, Strtol, no_negative, only_postive, int_max, is_huge, is_out_of_range, to_int32,
  str2int32, GotOpt, opt_q, opt_c, opt_a, opt_p, opt_v, opt_h, opt_other, DupOptions, GetOpt,
  dup_ok, dup_error, exits, minus_one, initial, is_bad_period, range_of, range_end, range_from,
  str2range, set_queue, set_copies, set_range, set_period, take_opt, take_name, take_opts, and_then,
  get_opt,
}

-- The options are in range; the name is there only at the end.
pub record IsValid {S : Type 0} (o : DupOptions S) : Type 0 where
  pub queue : (o.queue_id ≡ minus_one) ⊎ (o.queue_id < int_max)
  pub few : (1 ≤ o.copies) × (o.copies ≤ 8)
  pub period : (o.rpt_period ≡ 0) ⊎ ((5 ≤ o.rpt_period) × (o.rpt_period ≤ 86400))
  pub range :
      ((o.affinity_flag ≡ false) × (o.affinity_begin ≡ minus_one) × (o.affinity_end ≡ minus_one))
      ⊎ ((o.affinity_flag ≡ true)
          × (o.affinity_begin ≤ o.affinity_end)
          × (o.affinity_begin < int_max)
          × (o.affinity_end ≤ int_max))

-- dup_str2int32
abbrev Below : ℕ → Option ℕ → Type 0
Below low none = Unit {0}
Below low (some x) = (low ≤ x) × (x < int_max)

let_through :
    (e h o rest : Bool) (low x : ℕ)
    → (h ≡ false → o ≡ false → (low ≤ x) × (x < int_max))
    → Below low (if e || (h || (o || rest)) then none else some x)
let_through true h o rest low x ok = tt
let_through false true o rest low x ok = tt
let_through false false true rest low x ok = tt
let_through false false false true low x ok = tt
let_through false false false false low x ok = ok refl refl

not_negative :
    (z : ℤ)
    → is_huge z ≡ false
    → is_out_of_range no_negative z ≡ false
    → (0 ≤ to_int32 z) × (to_int32 z < int_max)
unfolding is_huge is_out_of_range to_int32
not_negative (pos n) small inside = ground (arith, small)
not_negative (negsuc n) small inside = cc

positive :
    (z : ℤ)
    → is_huge z ≡ false
    → is_out_of_range only_postive z ≡ false
    → (1 ≤ to_int32 z) × (to_int32 z < int_max)
unfolding is_huge is_out_of_range to_int32
positive (pos n) small inside = ground (arith, small, inside)
positive (negsuc n) small inside = cc

str2int32-no_negative : (s : Strtol) → Below 0 (str2int32 s no_negative)
unfolding str2int32
str2int32-no_negative s = let_through _ _ _ _ 0 _ (not_negative s.lval)

str2int32-only_postive : (s : Strtol) → Below 1 (str2int32 s only_postive)
unfolding str2int32
str2int32-only_postive s = let_through _ _ _ _ 1 _ (positive s.lval)

-- dup_str2range
abbrev Ordered : Option (ℕ × ℕ) → Type 0
Ordered none = Unit {0}
Ordered (some r) = (r.0 ≤ r.1) × (r.0 < int_max) × (r.1 ≤ int_max)

abbrev AtMost : Option ℕ → Type 0
AtMost none = Unit {0}
AtMost (some x) = x ≤ int_max

Below-AtMost : (x : Option ℕ) → Below 0 x → AtMost x
Below-AtMost none b = tt
Below-AtMost (some x) b = omega (arith, b)

range_of-Ordered :
    (first : ℕ) (last : Option ℕ) → first < int_max → AtMost last → Ordered (range_of first last)
unfolding range_of ltb_i32
range_of-Ordered first none small le = tt
range_of-Ordered first (some last) small le = ground (arith, small, le)

-- Each option keeps the options valid.
abbrev Keeps : {S : Type 0} → GetOpt S → Type 0
Keeps (dup_ok o) = IsValid o
Keeps dup_error = Unit {0}
Keeps (exits code) = Unit {0}

few_of : (x : ℕ) → x < int_max → ltb_i32 8 x ≡ false → x ≤ 8
unfolding ltb_i32
few_of x b e = ground (arith, b, e)

period_of : (x : ℕ) → x < int_max → is_bad_period x ≡ false → (x ≡ 0) ⊎ ((5 ≤ x) × (x ≤ 86400))
unfolding is_bad_period ltb_i32
period_of x b e = grind (arith, b, e)

module _ {S : Type 0} (o : DupOptions S) (v : IsValid o) where
  set_queue-Keeps : (x : Option ℕ) → Below 0 x → Keeps (set_queue o x)
  unfolding set_queue
  set_queue-Keeps none b = tt
  set_queue-Keeps (some x) b = record {
    queue = inr b.1;
    few = v.few;
    period = v.period;
    range = v.range;
  }

  set_copies-Keeps : (x : Option ℕ) → Below 1 x → Keeps (set_copies o x)
  unfolding set_copies
  set_copies-Keeps none b = tt
  set_copies-Keeps (some x) b = elim (Bool-cases (ltb_i32 8 x)) [
    | inl e ↦ rw (e) tt
    | inr e ↦ rw (e) (record {
      queue = v.queue;
      few = (b.0, few_of x b.1 e);
      period = v.period;
      range = v.range;
    })
  ]

  set_range-Keeps : (x : Option (ℕ × ℕ)) → Ordered x → Keeps (set_range o x)
  unfolding set_range
  set_range-Keeps none b = tt
  set_range-Keeps (some r) b = record {
    queue = v.queue;
    few = v.few;
    period = v.period;
    range = inr (refl, b.0, b.1, b.2);
  }

  set_period-Keeps : (x : Option ℕ) → Below 0 x → Keeps (set_period o x)
  unfolding set_period
  set_period-Keeps none b = tt
  set_period-Keeps (some x) b = elim (Bool-cases (is_bad_period x)) [
    | inl e ↦ rw (e) tt
    | inr e ↦
        rw (e)
          (record { queue = v.queue; few = v.few; period = period_of x b.1 e; range = v.range })
  ]

initial-IsValid : {S : Type 0} → IsValid (initial {S = S})
initial-IsValid = record {
  queue = inl refl;
  few = (omega arith, omega arith);
  period = inr (omega arith, omega arith);
  range = inl (refl, refl, refl);
}

and_then-Keeps :
    {S : Type 0} (r : GetOpt S) (next : DupOptions S → GetOpt S)
    → Keeps r
    → ((o : DupOptions S) → IsValid o → Keeps (next o))
    → Keeps (and_then r next)
unfolding and_then
and_then-Keeps (dup_ok o) next v kept = kept o v
and_then-Keeps dup_error next v kept = tt
and_then-Keeps (exits code) next v kept = tt

module _ {S : Type 0} (strtol : S → Strtol) (strsep : S → S × Option S) (strlen : S → ℕ) where
  range_end-AtMost : (rest : Option S) → AtMost (range_end strtol strsep strlen rest)
  unfolding range_end
  range_end-AtMost none = omega arith
  range_end-AtMost (some s) = Below-AtMost _ (str2int32-no_negative (strtol s))

  range_from-Ordered :
      (rest : Option S) (x : Option ℕ)
      → Below 0 x
      → Ordered (range_from strtol strsep strlen rest x)
  unfolding range_from
  range_from-Ordered rest none b = tt
  range_from-Ordered rest (some x) b = range_of-Ordered x _ b.1 (range_end-AtMost rest)

  str2range-Ordered : (s : S) → Ordered (str2range strtol strsep strlen s)
  unfolding str2range
  str2range-Ordered s = range_from-Ordered _ _ (str2int32-no_negative (strtol (strsep s).0))

  take_opt-Keeps :
      (o : DupOptions S) (x : GotOpt S) → IsValid o → Keeps (take_opt strtol strsep strlen o x)
  unfolding take_opt
  take_opt-Keeps o (opt_q none) v = tt
  take_opt-Keeps o (opt_q (some s)) v = set_queue-Keeps o v _ (str2int32-no_negative (strtol s))
  take_opt-Keeps o (opt_c none) v = tt
  take_opt-Keeps o (opt_c (some s)) v = set_copies-Keeps o v _ (str2int32-only_postive (strtol s))
  take_opt-Keeps o (opt_a none) v = tt
  take_opt-Keeps o (opt_a (some s)) v = set_range-Keeps o v _ (str2range-Ordered s)
  take_opt-Keeps o (opt_p none) v = tt
  take_opt-Keeps o (opt_p (some s)) v = set_period-Keeps o v _ (str2int32-no_negative (strtol s))
  take_opt-Keeps o opt_v v = tt
  take_opt-Keeps o opt_h v = tt
  take_opt-Keeps o opt_other v = tt

  take_name-Keeps :
      (name : Option S) (o : DupOptions S)
      → IsValid o
      → Keeps (take_name strtol strsep strlen name o)
  unfolding take_name
  take_name-Keeps none o v = tt
  take_name-Keeps (some s) o v = elim (Bool-cases (leb 16 (strlen s))) [
    | inl e ↦ rw (e) tt
    | inr e ↦ rw (e) (record { queue = v.queue; few = v.few; period = v.period; range = v.range })
  ]

  take_opts-Keeps :
      (name : Option S) (o : DupOptions S) (xs : List (GotOpt S))
      → IsValid o
      → Keeps (take_opts strtol strsep strlen name o xs)
  unfolding take_opts
  take_opts-Keeps name o [] v = take_name-Keeps name o v
  take_opts-Keeps name o (x ∷ xs) v =
      and_then-Keeps _ _ (take_opt-Keeps o x v) (λ o' v'. take_opts-Keeps name o' xs v')

  -- Whatever the command line is: when dup_get_opt returns DUP_OK, the queue is -1 or a number from 0 on,
  -- there are 1 to 8 copies, the period is 0 or 5 seconds to a day, and the CPUs are either not asked
  -- for, with -1 at both ends, or a range from 0 on whose first is not past its last.
  pub get_opt-IsValid :
      (opts : List (GotOpt S)) (name : Option S) (o : DupOptions S)
      → get_opt strtol strsep strlen opts name ≡ dup_ok o
      → IsValid o
  unfolding get_opt
  get_opt-IsValid opts name o e = subst Keeps e (take_opts-Keeps name initial opts initial-IsValid)
