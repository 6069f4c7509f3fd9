-- ===== src/Launch/Pinned.antt =====
-- The CPUs that the duplicator's threads get (duplicator/duplicator.c).
use dpa.Prelude.{
  ℕ, ◌+◌, ◌^◌, ◌≤◌, ◌<◌, ◌≡◌, ◌⊎◌, inl, inr, refl, List, Bool, true, false, not, ◌||◌, Option, none,
  some, arith, ◌==◌, if◌then◌else◌, Bool-cases, ap, subst, sym, ◌∙◌,
}
use mathlib.Core.Option.{none-ne-some, some_inj}
use dpa.Prelude.Word.{ltb_i32, add32, sub32}
use dpa.Options.{
  Strtol, GotOpt, DupOptions, GetOpt, dup_ok, dup_error, exits, minus_one, int_max, get_opt,
  set_affinity,
}
use dpa.Options.Ranges.{IsValid, get_opt-IsValid}
use dpa.Options.Affinity.{Decides, set_affinity-Decides}
use dpa.Launch.Runs.{cpus, IsRun, create_from-IsRun}
use dpa.Launch.{
  ProcCb, Targs, ThreadCalls, create_from, create_threads, IocInfo, MainCalls, ◌>>=◌, with_queues,
  with_cpus, init_shm, shm_caps, dev_proc, start_copies, main_of,
}

>>=-eq-some {ℓ κ} :
    {A : Type ℓ} {B : Type κ} (m : Option A) (f : A → Option B) {b : B}
    → (m >>= f) ≡ some b
    → (a : A) × (m ≡ some a) × (f a ≡ some b)
>>=-eq-some none f e = elim (none-ne-some _ e) [ ]
>>=-eq-some (some a) f e = (a, refl, e)

-- What comes out of an if whose first branch is none
else-eq-some {ℓ} :
    {A : Type ℓ} (b : Bool) (x : Option A) {a : A}
    → (if b then none else x) ≡ some a
    → (b ≡ false) × (x ≡ some a)
else-eq-some true x e = elim (none-ne-some _ e) [ ]
else-eq-some false x e = (refl, e)

set_affinity-first :
    (ncpus n first last : ℕ) (r : ℕ × ℕ) → set_affinity ncpus n first last ≡ some r → r.0 ≡ first
unfolding set_affinity
set_affinity-first ncpus n first last r e =
    let last' = if last == int_max then sub32 (add32 first n) 1 else last in
    let (_, e1) = else-eq-some (ltb_i32 first 0 || ltb_i32 last 0) _ e in
    let (_, e2) = else-eq-some (ltb_i32 ncpus n) _ e1 in
    let (_, e3) = else-eq-some (not (ltb_i32 last' ncpus)) _ e2 in
    let (_, e4) = else-eq-some (ltb_i32 (add32 (sub32 last' first) 1) n) _ e3 in
    ap (λ (t : ℕ × ℕ). t.0) {y = (first, sub32 (add32 first n) 1)} (sym (some_inj.0 e4))

create_threads-from :
    {S : Type 0} (opt : DupOptions S) (dpaaddr : ℕ) (shm : List (Option ℕ)) (proc_cb : ProcCb)
    (calls : ℕ → ThreadCalls) (allocated : Bool) (ts : List Targs)
    → create_threads opt dpaaddr shm proc_cb calls allocated ≡ some ts
    → (create_from opt dpaaddr shm proc_cb calls opt.num_queues 0 opt.affinity_begin).0 ≡ ts
unfolding create_threads
create_threads-from opt dpaaddr shm proc_cb calls allocated ts e =
    let all = create_from opt dpaaddr shm proc_cb calls opt.num_queues 0 opt.affinity_begin in
    let (_, e1) = else-eq-some (not allocated) _ e in
    let (_, e2) = else-eq-some (all.1 == 0) (some all.0) e1 in some_inj.0 e2

-- The options after the check of the queue
record Counted {S : Type 0} (info : IocInfo) (opt opt' : DupOptions S) : Type 0 where
  queues : (1 ≤ opt'.num_queues) × (opt'.num_queues ≤ info.num_rx_queues)
  flag : opt'.affinity_flag ≡ opt.affinity_flag
  first : opt'.affinity_begin ≡ opt.affinity_begin
  last : opt'.affinity_end ≡ opt.affinity_end

count-in :
    (b : Bool) (n : ℕ) → (n == 0) ≡ false → (1 ≤ (if b then n else 1)) × ((if b then n else 1) ≤ n)
count-in b n e = ground (arith, e)

with_queues-Counted :
    {S : Type 0} (info : IocInfo) (opt opt' : DupOptions S)
    → with_queues info opt ≡ some opt'
    → Counted info opt opt'
unfolding with_queues
with_queues-Counted info opt opt' e =
    let n = if ltb_i32 opt.queue_id 0 then info.num_rx_queues else 1 in
    let (some_queue, e1) = else-eq-some (info.num_rx_queues == 0) _ e in
    let (_, e2) =
      else-eq-some (not (ltb_i32 opt.queue_id info.num_rx_queues))
        (some (record opt { num_queues = n })) e1 in
    subst (Counted info opt) (some_inj.0 e2) (record {
      queues = count-in (ltb_i32 opt.queue_id 0) info.num_rx_queues some_queue;
      flag = refl;
      first = refl;
      last = refl;
    })

-- The options after the check of the CPUs
record Settled {S : Type 0} (ncpus : ℕ) (opt : DupOptions S) : Type 0 where
  whole : opt.affinity_end + 1 ≡ opt.affinity_begin + opt.num_queues
  there : opt.affinity_begin + opt.num_queues ≤ ncpus

-- The range of CPUs, where it is asked for
abbrev HasRange : {S : Type 0} → DupOptions S → Type 0
HasRange opt =
    (opt.affinity_flag ≡ false)
    ⊎ ((opt.affinity_begin ≤ opt.affinity_end) × (opt.affinity_end ≤ int_max))

IsValid-HasRange :
    {S : Type 0} {info : IocInfo} (opt opt' : DupOptions S)
    → IsValid opt
    → Counted info opt opt'
    → HasRange opt'
IsValid-HasRange opt opt' v c = elim v.range [
  | inl off ↦ inl (c.flag ∙ off.0)
  | inr on ↦ inr (omega (arith, on.1, c.first, c.last), omega (arith, on.3, c.last))
]

true-ne-false : true ≡ false → ⊥
true-ne-false e = cc

module _ {S : Type 0} (ncpus : ℕ) (small : ncpus < 2 ^ 31) where
  abbrev Settles : DupOptions S → Type 0
  Settles opt = opt.affinity_begin + opt.num_queues ≤ 2 ^ 31 → Settled ncpus opt

  pinned-Settles :
      (opt : DupOptions S) (r : ℕ × ℕ)
      → opt.affinity_begin ≤ opt.affinity_end
      → opt.affinity_end ≤ int_max
      → 1 ≤ opt.num_queues
      → opt.num_queues ≤ 65535
      → set_affinity ncpus opt.num_queues opt.affinity_begin opt.affinity_end ≡ some r
      → Settles (record opt { affinity_begin = r.0; affinity_end = r.1 })
  pinned-Settles opt r le top some_queue few e fits =
      let first = set_affinity-first ncpus opt.num_queues opt.affinity_begin opt.affinity_end r e in
      let d : Decides ncpus opt.num_queues opt.affinity_begin opt.affinity_end (some r) =
        subst (Decides ncpus opt.num_queues opt.affinity_begin opt.affinity_end) e (
          set_affinity-Decides ncpus opt.num_queues opt.affinity_begin opt.affinity_end some_queue
            few small le top (omega (arith, fits, first))) in
      record { whole = omega (arith, d.1, first); there = omega (arith, d.2, first) }

  with_cpus-Settled :
      (opt opt' : DupOptions S)
      → HasRange opt
      → 1 ≤ opt.num_queues
      → opt.num_queues ≤ 65535
      → with_cpus ncpus opt ≡ some opt'
      → opt'.affinity_flag ≡ true
      → Settles opt'
  unfolding with_cpus
  with_cpus-Settled opt opt' range some_queue few e asked =
      let pinned =
        set_affinity ncpus opt.num_queues opt.affinity_begin opt.affinity_end
        >>= (λ r. some (record opt { affinity_begin = r.0; affinity_end = r.1 })) in
      let run : Bool → Type 0 = λ b. (if not b then some opt else pinned) ≡ some opt' in
      elim (Bool-cases opt.affinity_flag) [
        | inr off ↦
            let same : opt ≡ opt' = some_inj.0 (subst run off e) in
            let h : true ≡ false =
              sym asked ∙ ap (λ (o : DupOptions S). o.affinity_flag) (sym same) ∙ off in
            elim (true-ne-false h) [ ]
        | inl on ↦
            let (r, chosen, e2) =
              >>=-eq-some (set_affinity ncpus opt.num_queues opt.affinity_begin opt.affinity_end)
                (λ r. some (record opt { affinity_begin = r.0; affinity_end = r.1 }))
                (subst run on e) in
            elim range [
              | inl off ↦ elim (true-ne-false (sym on ∙ off)) [ ]
              | inr (le, top) ↦
                  subst Settles (some_inj.0 e2) (pinned-Settles opt r le top some_queue few chosen)
            ]
      ]

module _ {S : Type 0} (calls : MainCalls) (info : IocInfo) (few : info.num_rx_queues ≤ 65535)
    (small : calls.ncpus < 2 ^ 31) where
  -- What main hands on: the options, and the threads on so many CPUs in a row that the computer has
  abbrev pub OnCpus : DupOptions S × List Targs → Type 0
  OnCpus r =
      let (opt, ts) = r in
      IsRun opt.affinity_begin opt.num_queues (cpus ts)
      × (opt.affinity_begin + opt.num_queues ≤ calls.ncpus)

  abbrev Pinned : DupOptions S × List Targs → Type 0
  Pinned r = r.0.affinity_flag ≡ true → r.0.affinity_begin + r.0.num_queues ≤ 2 ^ 31 → OnCpus r

  threads-Pinned :
      (opt : DupOptions S) (dpaaddr : ℕ) (shm : List (Option ℕ)) (p : ProcCb) (ts : List Targs)
      → (opt.affinity_flag ≡ true → Settles calls.ncpus small opt)
      → create_threads opt dpaaddr shm p calls.threads calls.allocated ≡ some ts
      → Pinned (opt, ts)
  threads-Pinned opt dpaaddr shm p ts settles e asked fits =
      let s = settles asked fits in
      (
        subst (λ ts. IsRun opt.affinity_begin opt.num_queues (cpus ts))
            (create_threads-from opt dpaaddr shm p calls.threads calls.allocated ts e)
            (create_from-IsRun opt dpaaddr shm p calls.threads asked
              (omega (arith, s.whole, s.there, small)) opt.num_queues 0 opt.affinity_begin
              (omega (arith, s.whole))),
        s.there,
      )

  start_copies-Pinned :
      (opt : DupOptions S) (r : DupOptions S × List Targs)
      → IsValid opt
      → start_copies calls opt info ≡ some r
      → Pinned r
  unfolding start_copies
  start_copies-Pinned opt r v e =
      let (p, _, e1) = >>=-eq-some (dev_proc info.dev_model) _ e in
      let (opt1, counted, e2) = >>=-eq-some (with_queues info opt) _ e1 in
      let (opt2, settled, e3) = >>=-eq-some (with_cpus calls.ncpus opt1) _ e2 in
      let (shm, _, e4) = >>=-eq-some (init_shm calls opt2 info (shm_caps p.1) opt2.copies 0) _ e3 in
      let (dpaaddr, _, e5) = >>=-eq-some calls.dpaaddr _ e4 in
      let (ts, made, e6) =
        >>=-eq-some (create_threads opt2 dpaaddr shm p.0 calls.threads calls.allocated) _ e5 in
      let c = with_queues-Counted info opt opt1 counted in
      subst Pinned (some_inj.0 e6) (
        threads-Pinned opt2 dpaaddr shm p.0 ts
          (λ asked fits.
            with_cpus-Settled calls.ncpus small opt1 opt2 (IsValid-HasRange opt opt1 v c) c.queues.0
              (omega (arith, c.queues.1, few)) settled asked fits)
          made)

  main_of-valid :
      (g : GetOpt S) (r : DupOptions S × List Targs)
      → ((opt : DupOptions S) → g ≡ dup_ok opt → IsValid opt)
      → calls.info ≡ some info
      → main_of calls g ≡ some r
      → Pinned r
  unfolding main_of
  main_of-valid dup_error r v at e = elim (none-ne-some _ e) [ ]
  main_of-valid (exits code) r v at e = elim (none-ne-some _ e) [ ]
  main_of-valid (dup_ok opt) r v at e =
      let (_, e1) =
        else-eq-some (calls.ctlfd == minus_one) (calls.info >>= start_copies calls opt) e in
      start_copies-Pinned opt r (v opt refl)
        (subst (λ i. (i >>= start_copies calls opt) ≡ some r) at e1)

  -- Whatever the command line is, on an interface of at most 65535 queues and a computer whose CPUs an
  -- int32_t counts: where main starts threads and CPUs were asked for, and first CPU and number of
  -- queues together do not pass 2 ^ 31, the computer has the CPUs for all queues from the first on, and
  -- the threads whose device could be opened have these one after the other, none left out.
  pub main_of-OnCpus :
      (strtol : S → Strtol) (strsep : S → S × Option S) (strlen : S → ℕ) (opts : List (GotOpt S))
      (name : Option S) (opt : DupOptions S) (ts : List Targs)
      → calls.info ≡ some info
      → main_of calls (get_opt strtol strsep strlen opts name) ≡ some (opt, ts)
      → opt.affinity_flag ≡ true
      → opt.affinity_begin + opt.num_queues ≤ 2 ^ 31
      → OnCpus (opt, ts)
  main_of-OnCpus strtol strsep strlen opts name opt ts at e =
      main_of-valid (get_opt strtol strsep strlen opts name) (opt, ts)
        (get_opt-IsValid strtol strsep strlen opts name) at e
