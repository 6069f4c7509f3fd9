-- ===== src/Sync/Harvested.antt =====
-- The first half of igb_dpa_rx_sync (drivers/igb-3.0.6/igb_dpa.h): the loop over the descriptors
-- that the card has finished.
use dpa.Prelude.{
  ℕ, zero, suc, ◌+◌, ◌-◌, ◌%◌, ◌^◌, ◌≤◌, ◌<◌, ◌≡◌, List, [], ◌∷◌, true, false, some, refl, ap, sym,
  ◌∙◌, arith, get_or, set, length, length-set,
}
use native.Mathlib.Nat.{mod-lt, mod-eq_of_lt, add-zero}
use dpa.Prelude.Mod.{mod_cases, advance_twice}
use dpa.Prelude.Word.{u32}
use dpa.Ring.{DpaSlot, no_slot}
use dpa.Sync.{RxDesc, no_desc, next_slot, is_done, Harvest, harvest_one, harvest}

pub next_slot-eq : (n x : ℕ) → x < n → n ≤ 2 ^ 30 → next_slot (n - 1) x ≡ (x + 1) % n
unfolding next_slot
next_slot-eq n x h small = ground (arith, mod_cases (x + 1) n)

-- From descriptor `n` on, `m` are finished and the next is not.
pub record IsRun (desc : List RxDesc) (size n m : ℕ) : Type 0 where
  pub done : (j : ℕ) → j < m → is_done (get_or desc ((n + j) % size) no_desc) ≡ true
  pub open_end : is_done (get_or desc ((n + m) % size) no_desc) ≡ false

-- The bytes of a run.
abbrev pub run_bytes : List RxDesc → ℕ → ℕ → ℕ → ℕ
run_bytes desc size n zero = 0
run_bytes desc size n (suc m) =
    (get_or desc n no_desc).length + run_bytes desc size ((n + 1) % size) m

IsRun-tail :
    (desc : List RxDesc) (size n m : ℕ)
    → IsRun desc size n (suc m)
    → IsRun desc size ((n + 1) % size) m
IsRun-tail desc size n m r = record {
  done = λ j h.
      ap (λ t. is_done (get_or desc t no_desc))
        (advance_twice n 1 j size ∙ ap (λ t. (n + t) % size) (omega arith))
      ∙ r.done (suc j) (omega arith);
  open_end =
      ap (λ t. is_done (get_or desc t no_desc))
        (advance_twice n 1 m size ∙ ap (λ t. (n + t) % size) (omega arith))
      ∙ r.open_end;
}

-- What the loop ends with.
pub record Harvests (desc : List RxDesc) (size m : ℕ) (h h' : Harvest) : Type 0 where
  pub n_eq : h'.n ≡ (h.n + m) % size
  pub k_eq : h'.k ≡ (h.k + m) % size
  pub count_eq : h'.count ≡ u32 (h.count + m)
  pub total_eq : h'.total ≡ u32 (h.total + run_bytes desc size h.n m)
  pub length_eq : length h'.slot ≡ length h.slot
  pub bufs_eq : (i : ℕ) → (get_or h'.slot i no_slot).buf_idx ≡ (get_or h.slot i no_slot).buf_idx

bufs-set :
    (slots : List DpaSlot) (k l x i : ℕ)
    → (get_or
        (set slots k (record (get_or slots k no_slot) { len = l; info = x }))
        i
        no_slot).buf_idx
      ≡ (get_or slots i no_slot).buf_idx
bufs-set [] k l x i = refl
bufs-set (s ∷ ss) zero l x zero = refl
bufs-set (s ∷ ss) zero l x (suc i) = refl
bufs-set (s ∷ ss) (suc k) l x zero = refl
bufs-set (s ∷ ss) (suc k) l x (suc i) = bufs-set ss k l x i

module _ (desc : List RxDesc) (size : ℕ) (small : size ≤ 2 ^ 30) where
  one-n : (h : Harvest) → h.n < size → (harvest_one desc (size - 1) h).n ≡ (h.n + 1) % size
  unfolding harvest_one
  one-n h inside = next_slot-eq size h.n inside small

  one-k : (h : Harvest) → h.k < size → (harvest_one desc (size - 1) h).k ≡ (h.k + 1) % size
  unfolding harvest_one
  one-k h inside = next_slot-eq size h.k inside small

  one-rest :
      (h : Harvest)
      → let h' = harvest_one desc (size - 1) h in
        (h'.count ≡ u32 (h.count + 1))
        × (h'.total ≡ u32 (h.total + (get_or desc h.n no_desc).length))
        × (length h'.slot ≡ length h.slot)
        × ((i : ℕ) → (get_or h'.slot i no_slot).buf_idx ≡ (get_or h.slot i no_slot).buf_idx)
  unfolding harvest_one
  one-rest h = (refl, refl, length-set h.slot h.k _, bufs-set h.slot h.k _ _)

  -- The loop stops at the first descriptor that is not finished.
  pub harvest-run :
      (m f : ℕ) (h : Harvest)
      → h.n < size
      → h.k < size
      → h.count < 2 ^ 32
      → h.total < 2 ^ 32
      → m < f
      → IsRun desc size h.n m
      → (h' : Harvest) × (harvest f desc (size - 1) h ≡ some h') × Harvests desc size m h h'
  unfolding harvest
  harvest-run m zero h inn ink c t lt r = absurd (omega arith)
  harvest-run zero (suc f) h inn ink c t lt r =
      let stop : is_done (get_or desc h.n no_desc) ≡ false =
        ap (λ x. is_done (get_or desc x no_desc)) (sym (rw add-zero (mod-eq_of_lt inn)))
        ∙ r.open_end in
      (
        h,
        rw stop refl,
        record {
          n_eq = sym (rw add-zero (mod-eq_of_lt inn));
          k_eq = sym (rw add-zero (mod-eq_of_lt ink));
          count_eq = omega arith;
          total_eq = omega arith;
          length_eq = refl;
          bufs_eq = λ i. refl;
        },
      )
  harvest-run (suc m) (suc f) h inn ink c t lt r =
      let on : is_done (get_or desc h.n no_desc) ≡ true =
        ap (λ x. is_done (get_or desc x no_desc)) (sym (rw add-zero (mod-eq_of_lt inn)))
        ∙ r.done 0 (omega arith) in
      let en = one-n h inn in
      let ek = one-k h ink in
      let (ec, et, el, eb) = one-rest h in
      let next = harvest_one desc (size - 1) h in
      let (h', e, s) =
        harvest-run m f next (rw en (mod-lt _ (omega arith))) (rw ek (mod-lt _ (omega arith)))
          (rw ec (omega arith)) (rw et (omega arith)) (omega arith)
          (rw en (IsRun-tail desc size h.n m r)) in
      (
        h',
        rw on e,
        record {
          n_eq =
              s.n_eq
              ∙ ap (λ x. (x + m) % size) en
              ∙ advance_twice h.n 1 m size
              ∙ ap (λ x. (h.n + x) % size) (omega arith);
          k_eq =
              s.k_eq
              ∙ ap (λ x. (x + m) % size) ek
              ∙ advance_twice h.k 1 m size
              ∙ ap (λ x. (h.k + x) % size) (omega arith);
          count_eq = omega (arith, s.count_eq, ec);
          total_eq = omega (arith, s.total_eq, et, ap (λ x. run_bytes desc size x m) en);
          length_eq = s.length_eq ∙ el;
          bufs_eq = λ i. s.bufs_eq i ∙ eb i;
        },
      )
