-- ===== src/Options.antt =====
-- duplicator/options.c: the duplicator's options. What strtol, strsep, strlen and getopt_long return is
-- an argument, and the texts are left out. An int32_t is its two's complement pattern.
pub mod Ranges
pub mod Affinity
pub mod Tests
use dpa.Prelude.{
  ℕ, zero, suc, ◌+◌, ◌-◌, ◌^◌, List, [], ◌∷◌, Bool, true, false, not, ◌||◌, ◌&&◌, Option, none,
  some, if◌then◌else◌, ◌==◌, leb,
}
use dpa.Prelude.Word.{u32, add32, sub32, ltb_i32}

pub data ℤ : Type 0 where
  pos : ℕ → ℤ
  negsuc : ℕ → ℤ

-- What strtol leaves: the value, `errno == ERANGE`, `errno != 0`, and `endptr == str`.
pub record Strtol : Type 0 where
  pub lval : ℤ
  pub erange : Bool
  pub errno : Bool
  pub unread : Bool

-- The third argument of dup_str2int32
pub data SignRange : Type 0 where
  no_negative : SignRange
  only_postive : SignRange
  no_range : SignRange

abbrev pub int_max : ℕ
int_max = 2 ^ 31 - 1

unfoldable pub is_huge : ℤ → Bool
is_huge (pos n) = leb int_max n
is_huge (negsuc n) = false

unfoldable pub is_out_of_range : SignRange → ℤ → Bool
is_out_of_range no_negative (pos n) = false
is_out_of_range no_negative (negsuc n) = true
is_out_of_range only_postive (pos n) = n == 0
is_out_of_range only_postive (negsuc n) = true
is_out_of_range no_range (pos n) = false
is_out_of_range no_range (negsuc n) = leb int_max n

abbrev is_zero : ℤ → Bool
is_zero (pos n) = n == 0
is_zero (negsuc n) = false

-- The cast to int32_t
unfoldable pub to_int32 : ℤ → ℕ
to_int32 (pos n) = u32 n
to_int32 (negsuc n) = 2 ^ 32 - 1 - u32 n

-- dup_str2int32
unfoldable pub str2int32 : Strtol → SignRange → Option ℕ
str2int32 s range =
    if s.erange
      || (is_huge s.lval
          || (is_out_of_range range s.lval || ((s.errno && is_zero s.lval) || s.unread)))
    then none
    else some (to_int32 s.lval)

-- What getopt_long returns, with `optarg`
pub data GotOpt (S : Type 0) : Type 0 where
  opt_q : Option S → GotOpt S
  opt_c : Option S → GotOpt S
  opt_a : Option S → GotOpt S
  opt_p : Option S → GotOpt S
  opt_v : GotOpt S
  opt_h : GotOpt S
  opt_other : GotOpt S

-- struct dup_options_s
pub record DupOptions (S : Type 0) : Type 0 where
  pub if_name : Option S
  pub queue_id : ℕ
  pub copies : ℕ
  pub affinity_flag : Bool
  pub affinity_begin : ℕ
  pub affinity_end : ℕ
  pub num_queues : ℕ
  pub rpt_period : ℕ

-- DUP_OK, DUP_ERROR, or the call of exit
pub data GetOpt (S : Type 0) : Type 0 where
  dup_ok : DupOptions S → GetOpt S
  dup_error : GetOpt S
  exits : ℕ → GetOpt S

unfoldable pub and_then : {S : Type 0} → GetOpt S → (DupOptions S → GetOpt S) → GetOpt S
and_then (dup_ok o) next = next o
and_then dup_error next = dup_error
and_then (exits code) next = exits code

abbrev pub minus_one : ℕ
minus_one = 2 ^ 32 - 1

abbrev pub initial : {S : Type 0} → DupOptions S
initial = record {
  if_name = none;
  queue_id = minus_one;
  copies = 3;
  affinity_flag = false;
  affinity_begin = minus_one;
  affinity_end = minus_one;
  num_queues = 0;
  rpt_period = 300;
}

abbrev pub dup_max_copies : ℕ
dup_max_copies = 8

unfoldable pub is_bad_period : ℕ → Bool
is_bad_period p = not (p == 0) && (ltb_i32 86400 p || ltb_i32 p 5)

-- What dup_str2range makes of its two numbers
unfoldable pub range_of : ℕ → Option ℕ → Option (ℕ × ℕ)
range_of first none = none
range_of first (some last) =
    if ltb_i32 first 0 || ltb_i32 last first then none else some (first, last)

module _ {S : Type 0} where
  -- The cases of dup_get_opt, after the value is read
  unfoldable pub set_queue : DupOptions S → Option ℕ → GetOpt S
  set_queue o none = dup_error
  set_queue o (some x) = dup_ok (record o { queue_id = x })

  unfoldable pub set_copies : DupOptions S → Option ℕ → GetOpt S
  set_copies o none = dup_error
  set_copies o (some x) =
      if ltb_i32 dup_max_copies x then dup_error else dup_ok (record o { copies = x })

  unfoldable pub set_range : DupOptions S → Option (ℕ × ℕ) → GetOpt S
  set_range o none = dup_error
  set_range o (some (first, last)) =
      dup_ok (record o { affinity_flag = true; affinity_begin = first; affinity_end = last })

  unfoldable pub set_period : DupOptions S → Option ℕ → GetOpt S
  set_period o none = dup_error
  set_period o (some x) =
      if is_bad_period x then dup_error else dup_ok (record o { rpt_period = x })

module _ {S : Type 0} (strtol : S → Strtol) (strsep : S → S × Option S) (strlen : S → ℕ) where
  -- dup_str2range, of a string that is not NULL
  unfoldable pub range_end : Option S → Option ℕ
  range_end none = some int_max
  range_end (some s) = str2int32 (strtol s) no_negative

  unfoldable pub range_from : Option S → Option ℕ → Option (ℕ × ℕ)
  range_from rest none = none
  range_from rest (some first) = range_of first (range_end rest)

  unfoldable pub str2range : S → Option (ℕ × ℕ)
  str2range s =
      let (first, rest) = strsep s in range_from rest (str2int32 (strtol first) no_negative)

  unfoldable pub take_opt : DupOptions S → GotOpt S → GetOpt S
  take_opt o (opt_q none) = dup_error
  take_opt o (opt_q (some s)) = set_queue o (str2int32 (strtol s) no_negative)
  take_opt o (opt_c none) = dup_error
  take_opt o (opt_c (some s)) = set_copies o (str2int32 (strtol s) only_postive)
  take_opt o (opt_a none) = dup_error
  take_opt o (opt_a (some s)) = set_range o (str2range s)
  take_opt o (opt_p none) = dup_error
  take_opt o (opt_p (some s)) = set_period o (str2int32 (strtol s) no_negative)
  take_opt o opt_v = exits 0
  take_opt o opt_h = exits 0
  take_opt o opt_other = dup_error

  -- What follows the options: the first argument that is none
  unfoldable pub take_name : Option S → DupOptions S → GetOpt S
  take_name none o = dup_error
  take_name (some s) o =
      if leb 16 (strlen s) then exits 1 else dup_ok (record o { if_name = some s })

  -- The loop of dup_get_opt
  unfoldable pub take_opts : Option S → DupOptions S → List (GotOpt S) → GetOpt S
  unfolding and_then
  take_opts name o [] = take_name name o
  take_opts name o (x ∷ xs) = and_then (take_opt o x) (λ o'. take_opts name o' xs)

  -- dup_get_opt
  unfoldable pub get_opt : List (GotOpt S) → Option S → GetOpt S
  get_opt opts name = take_opts name initial opts

-- dup_set_affinity on `ncpus` CPUs: the range that it leaves, or DUP_ERROR
unfoldable pub set_affinity : ℕ → ℕ → ℕ → ℕ → Option (ℕ × ℕ)
set_affinity ncpus num_queues first last =
    let last' = if last == int_max then sub32 (add32 first num_queues) 1 else last in
    if ltb_i32 first 0 || ltb_i32 last 0
    then none
    else if ltb_i32 ncpus num_queues
    then none
    else if not (ltb_i32 last' ncpus)
    then none
    else if ltb_i32 (add32 (sub32 last' first) 1) num_queues
    then none
    else some (first, sub32 (add32 first num_queues) 1)
