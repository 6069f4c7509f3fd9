-- ===== src/Options/Tests.antt =====
-- Concrete command lines (duplicator/options.c).
use dpa.Prelude.{ℕ, ◌+◌, ◌-◌, ◌≡◌, ◌^◌, refl, [], ◌∷◌, true, false, Option, some, arith}
use dpa.Prelude.Word.{ltb_i32}
use dpa.Options.{
  pos, Strtol, str2int32, opt_c, opt_a, opt_p, dup_ok, dup_error, DupOptions, int_max, minus_one,
  get_opt, set_affinity, take_opts, take_opt, take_name, set_copies, set_range, set_period,
  str2range, range_from, range_end, range_of, is_huge, is_out_of_range, to_int32, is_bad_period,
  and_then,
}
use dpa.Options.Ranges.{IsValid, get_opt-IsValid}
use dpa.Options.Affinity.{Decides, set_affinity-Decides}

-- An argument is a number, and a range begins at it and ends two later.
abbrev pub number : ℕ → Strtol
number n = record { lval = pos n; erange = false; errno = false; unread = false }

abbrev pub two_more : ℕ → ℕ × Option ℕ
two_more n = (n, some (n + 2))

abbrev pub six : ℕ → ℕ
six n = 6

abbrev options : DupOptions ℕ
options = record {
  if_name = some 7;
  queue_id = minus_one;
  copies = 2;
  affinity_flag = true;
  affinity_begin = 1;
  affinity_end = 3;
  num_queues = 0;
  rpt_period = 0;
}

two_copies :
    get_opt number two_more six (opt_c (some 2) ∷ opt_a (some 1) ∷ opt_p (some 0) ∷ []) (some 7)
    ≡ dup_ok options
unfolding get_opt take_opts take_opt take_name set_copies set_range set_period str2range range_from
    range_end range_of str2int32 is_huge is_out_of_range to_int32 is_bad_period and_then ltb_i32
two_copies = refl

get_opt-IsValid_example : IsValid options
get_opt-IsValid_example =
    get_opt-IsValid number two_more six (opt_c (some 2) ∷ opt_a (some 1) ∷ opt_p (some 0) ∷ [])
      (some 7) options two_copies

set_affinity-Decides_example : Decides 8 3 5 int_max (set_affinity 8 3 5 int_max)
set_affinity-Decides_example =
    set_affinity-Decides 8 3 5 int_max (omega arith) (omega arith) (omega arith) (omega arith)
      (omega arith) (omega arith)

nine_copies : get_opt number two_more six (opt_c (some 9) ∷ []) (some 7) ≡ dup_error
unfolding get_opt take_opts take_opt set_copies str2int32 is_huge is_out_of_range to_int32 and_then
    ltb_i32
nine_copies = refl

-- Where the end of the range overflows, four CPUs are enough for any first one.
past_int_max : set_affinity 4 3 (2 ^ 31 - 2) int_max ≡ some (2 ^ 31 - 2, 2 ^ 31)
unfolding set_affinity ltb_i32
past_int_max = refl
