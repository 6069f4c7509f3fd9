-- ===== src/Forward/Batch/Verdict.antt =====
-- What becomes of each slot of a batch of duplicator/duplicator.c, stated slot by slot, and what a
-- list of such verdicts does to the counters and to the copies.
use dpa.Prelude.{
  ℕ, zero, suc, ◌+◌, ◌-◌, ◌%◌, ◌^◌, ◌<◌, ◌≡◌, List, [], ◌∷◌, map, if◌then◌else◌, arith, length,
  get_or, refl, ap, sym, subst, ◌∙◌, Bool-cases, inl, inr,
}
use mathlib.Core.List.{map-map, map-id}
use native.Mathlib.Nat.{add-zero, mod-eq_of_lt, mod-lt}
use dpa.Prelude.Mod.{advance_twice}
use dpa.Prelude.Word.{u16, u64, add32}
use dpa.Ring.{DpaRing, no_slot, ring_next}
use dpa.Ring.Index.{ring_next-eq}
use dpa.Window.{window}
use dpa.Forward.{DupSlot, put}
use dpa.Forward.Batch.{
  Batch, Bufs, is_bad, packet_of, take_slot, is_page_end, step_intel, step_bnx2, steps,
  bnx2_rx_offset, slot_header,
}
use dpa.Forward.Batch.Copies.{put_all, sum_len}

-- A slot of the card's bookkeeping, a slot of a bad length, or a packet.
pub data Verdict : Type 0 where
  skipped : Verdict
  bad : ℕ → Verdict
  good : DupSlot → Verdict

-- The packets among the verdicts, and the numbers of the others.
abbrev pub goods : List Verdict → List DupSlot
goods [] = []
goods (skipped ∷ vs) = goods vs
goods (bad l ∷ vs) = goods vs
goods (good x ∷ vs) = x ∷ goods vs

abbrev pub bads : List Verdict → ℕ
bads [] = 0
bads (skipped ∷ vs) = bads vs
bads (bad l ∷ vs) = suc (bads vs)
bads (good x ∷ vs) = bads vs

abbrev pub bad_bytes : List Verdict → ℕ
bad_bytes [] = 0
bad_bytes (skipped ∷ vs) = bad_bytes vs
bad_bytes (bad l ∷ vs) = l + bad_bytes vs
bad_bytes (good x ∷ vs) = bad_bytes vs

abbrev pub skips : List Verdict → ℕ
skips [] = 0
skips (skipped ∷ vs) = suc (skips vs)
skips (bad l ∷ vs) = skips vs
skips (good x ∷ vs) = skips vs

pub one_each : (vs : List Verdict) → length (goods vs) + bads vs + skips vs ≡ length vs
one_each [] = refl
one_each (skipped ∷ vs) = omega (arith, one_each vs)
one_each (bad l ∷ vs) = omega (arith, one_each vs)
one_each (good x ∷ vs) = omega (arith, one_each vs)

module _ (ring : DpaRing) (bufs : Bufs) where
  unfoldable pub judge : ℕ → ℕ → ℕ → Verdict
  judge max_size offs i =
      let s = get_or ring.slot i no_slot in
      if is_bad max_size s then bad s.len else good (packet_of bufs offs s)

  -- The largest packet is what a buffer leaves beside the header of an output slot.
  unfoldable pub verdict_intel : ℕ → Verdict
  verdict_intel = judge (u16 (ring.buf_size + 2 ^ 16 - slot_header)) 0

  unfoldable pub verdict_bnx2 : ℕ → Verdict
  verdict_bnx2 i =
      if is_page_end ring i
      then skipped
      else judge (u16 (ring.buf_size + 2 ^ 16 - bnx2_rx_offset)) bnx2_rx_offset i

-- The counters and copies after one verdict, and after several.
abbrev enter : Batch → Verdict → Batch
enter b skipped = record b { ipass = add32 b.ipass 1 }
enter b (bad l) = record b { err_pkts = add32 b.err_pkts 1; err_bytes = add32 b.err_bytes l }
enter b (good x) = record b {
  good_bytes = u64 (b.good_bytes + x.len);
  copies = map (λ c. put c x) b.copies;
}

abbrev move : Batch → ℕ → Batch
move b i = record b { cur = i }

take_slot-enter :
    (ring : DpaRing) (bufs : Bufs) (m offs : ℕ) (b : Batch)
    → take_slot ring bufs m offs b
      ≡ enter (move b (ring_next ring b.cur)) (judge ring bufs m offs b.cur)
unfolding take_slot judge packet_of
take_slot-enter ring bufs m offs b = elim (Bool-cases (is_bad m (get_or ring.slot b.cur no_slot))) [
  | inl e ↦ rw e refl
  | inr e ↦ rw e refl
]

abbrev pub Follows : DpaRing → (Batch → Batch) → (ℕ → Verdict) → Type 0
Follows ring step verdict =
    (b : Batch) → step b ≡ enter (move b (ring_next ring b.cur)) (verdict b.cur)

pub step_intel-Follows :
    (ring : DpaRing) (bufs : Bufs) → Follows ring (step_intel ring bufs) (verdict_intel ring bufs)
unfolding step_intel verdict_intel
step_intel-Follows ring bufs b = take_slot-enter ring bufs _ 0 b

pub step_bnx2-Follows :
    (ring : DpaRing) (bufs : Bufs) → Follows ring (step_bnx2 ring bufs) (verdict_bnx2 ring bufs)
unfolding step_bnx2 verdict_bnx2
step_bnx2-Follows ring bufs b = elim (Bool-cases (is_page_end ring b.cur)) [
  | inl e ↦ rw e refl
  | inr e ↦ rw e (take_slot-enter ring bufs _ bnx2_rx_offset b)
]

-- The state after some verdicts, described all at once; the ints do not overflow where the sums
-- are below 2 ^ 31.
pub record Reaches (b : Batch) (vs : List Verdict) (d : Batch) : Type 0 where
  pub err_pkts_eq : b.err_pkts + bads vs < 2 ^ 31 → d.err_pkts ≡ b.err_pkts + bads vs
  pub err_bytes_eq : b.err_bytes + bad_bytes vs < 2 ^ 31 → d.err_bytes ≡ b.err_bytes + bad_bytes vs
  pub ipass_eq : b.ipass + skips vs < 2 ^ 31 → d.ipass ≡ b.ipass + skips vs
  pub good_bytes_eq : u64 d.good_bytes ≡ u64 (b.good_bytes + sum_len (goods vs))
  pub copies_eq : d.copies ≡ map (λ c. put_all c (goods vs)) b.copies

enter-Reaches :
    (b : Batch) (i : ℕ) (v : Verdict) (vs : List Verdict) (d : Batch)
    → Reaches (enter (move b i) v) vs d
    → Reaches b (v ∷ vs) d
unfolding put_all
enter-Reaches b i skipped vs d r = record {
  err_pkts_eq = r.err_pkts_eq;
  err_bytes_eq = r.err_bytes_eq;
  ipass_eq = λ h. r.ipass_eq (omega arith) ∙ omega arith;
  good_bytes_eq = r.good_bytes_eq;
  copies_eq = r.copies_eq;
}
enter-Reaches b i (bad l) vs d r = record {
  err_pkts_eq = λ h. r.err_pkts_eq (omega arith) ∙ omega arith;
  err_bytes_eq = λ h. r.err_bytes_eq (omega arith) ∙ omega arith;
  ipass_eq = r.ipass_eq;
  good_bytes_eq = r.good_bytes_eq;
  copies_eq = r.copies_eq;
}
enter-Reaches b i (good x) vs d r = record {
  err_pkts_eq = r.err_pkts_eq;
  err_bytes_eq = r.err_bytes_eq;
  ipass_eq = r.ipass_eq;
  good_bytes_eq = omega (arith, r.good_bytes_eq);
  copies_eq = r.copies_eq ∙ map-map (λ c. put_all c (goods vs)) (λ c. put c x) b.copies;
}

Reaches-none : (b : Batch) → Reaches b [] b
unfolding put_all
Reaches-none b = record {
  err_pkts_eq = λ h. omega arith;
  err_bytes_eq = λ h. omega arith;
  ipass_eq = λ h. omega arith;
  good_bytes_eq = omega arith;
  copies_eq = sym (map-id b.copies);
}

cur-enter : (b : Batch) (i : ℕ) (v : Verdict) → (enter (move b i) v).cur ≡ i
cur-enter b i skipped = refl
cur-enter b i (bad l) = refl
cur-enter b i (good x) = refl

module _ (ring : DpaRing) (step : Batch → Batch) (verdict : ℕ → Verdict)
    (follows : Follows ring step verdict) (small : ring.num_slots < 2 ^ 32) where
  cur-step : (b : Batch) → b.cur < ring.num_slots → (step b).cur ≡ (b.cur + 1) % ring.num_slots
  cur-step b inside =
      ap (λ (d : Batch). d.cur) (follows b)
      ∙ cur-enter b _ (verdict b.cur)
      ∙ ring_next-eq ring b.cur small inside

  -- The loop over n slots ends n steps round the ring, and has entered the verdict of each slot.
  pub steps-Reaches :
      (n : ℕ) (b : Batch)
      → b.cur < ring.num_slots
      → ((steps step n b).cur ≡ (b.cur + n) % ring.num_slots)
        × Reaches b (window verdict ring.num_slots b.cur n) (steps step n b)
  unfolding steps window
  steps-Reaches zero b inside = (sym (rw add-zero (mod-eq_of_lt inside)), Reaches-none b)
  steps-Reaches (suc n) b inside =
      let next = cur-step b inside in
      let (c, r) = steps-Reaches n (step b) (rw next (mod-lt _ (omega arith))) in
      (
        c
            ∙ ap (λ t. (t + n) % ring.num_slots) next
            ∙ advance_twice b.cur 1 n ring.num_slots
            ∙ ap (λ t. (b.cur + t) % ring.num_slots) (omega arith),
        enter-Reaches b (ring_next ring b.cur) (verdict b.cur) _ _ (
            subst
              (λ t.
                Reaches t (window verdict ring.num_slots ((b.cur + 1) % ring.num_slots) n)
                  (steps step n (step b)))
              (follows b)
              (subst
                (λ t. Reaches (step b) (window verdict ring.num_slots t n) (steps step n (step b)))
                next r)),
      )
