-- ===== src/Forward/Batch/Accounts.antt =====
-- What one turn of dup_proc_intel and dup_proc_bnx2 (duplicator/duplicator.c) does to the kernel's
-- ring, to the thread's counters and to the copies.
use mathlib.Core.List.{map-map}
use dpa.Prelude.{
  ℕ, zero, suc, ◌+◌, ◌-◌, ◌*◌, ◌%◌, ◌^◌, ◌≤◌, ◌<◌, ◌≡◌, ◌≢◌, List, ◌∷◌, map, true, arith, length,
  get_or, ap, ap₂, ◌∙◌, refl, if◌then◌else◌, ◌==◌, min, ne→==_false, Bool-cases, inl, inr,
}
use native.Mathlib.Nat.{mod-lt}
use dpa.Prelude.Bits.{bit_and-low_mask}
use dpa.Prelude.Mod.{mod_cases}
use dpa.Prelude.Word.{u16, u64, sub32, ltb_i32}
use dpa.Ring.{DpaRing, no_slot}
use dpa.Window.{window, length-window}
use dpa.Forward.{flush}
use dpa.Forward.Batch.{
  Batch, Bufs, Totals, Thread, pkt_per_process, is_bad, step_intel, step_bnx2, start_batch, add_int,
  end_batch, round, proc_intel, proc_bnx2, is_page_end, hw_cur, bnx2_rx_offset,
}
use dpa.Forward.Batch.Copies.{put_all, sum_len}
use dpa.Forward.Batch.Verdict.{
  Verdict, skipped, bad, good, goods, bads, bad_bytes, skips, one_each, judge, verdict_intel,
  verdict_bnx2, Follows, step_intel-Follows, step_bnx2-Follows, Reaches, steps-Reaches,
}

-- What a turn finds: a proper ring with something in it, and 16-bit lengths.
pub record IsFilled (r : DpaRing) : Type 0 where
  pub slots_small : r.num_slots < 2 ^ 32
  pub cur_in : r.cur < r.num_slots
  pub some_avail : r.avail ≢ 0
  pub avail_small : r.avail < 2 ^ 32
  pub lens_small : (i : ℕ) → (get_or r.slot i no_slot).len < 2 ^ 16

-- How many slots a turn takes.
abbrev pub batch_size : DpaRing → ℕ
batch_size r = min r.avail pkt_per_process

-- The counters after the verdicts of a turn.
abbrev pub tally : Totals → List Verdict → Totals
tally t vs = record {
  packets = u64 (t.packets + length (goods vs));
  total_bytes = u64 (t.total_bytes + sum_len (goods vs));
  err_packets = u64 (t.err_packets + bads vs);
  total_err_bytes = u64 (t.total_err_bytes + bad_bytes vs);
}

abbrev pub after : Thread → List Verdict → Thread
after t vs = record {
  ring = record (t.ring) {
    avail = t.ring.avail - batch_size t.ring;
    cur = (t.ring.cur + batch_size t.ring) % t.ring.num_slots;
  };
  totals = tally t.totals vs;
  copies = map (λ c. flush (put_all c (goods vs))) t.copies;
}

abbrev bad_len : Verdict → ℕ
bad_len skipped = 0
bad_len (bad l) = l
bad_len (good x) = 0

add_int_small : (total x : ℕ) → x < 2 ^ 31 → add_int total x ≡ u64 (total + x)
unfolding add_int ltb_i32
add_int_small total x h = ground arith

entry-le :
    (v : Verdict) (vs : List Verdict) (k : ℕ)
    → bad_len v < 2 ^ 16
    → bad_bytes vs ≤ k * 2 ^ 16
    → bad_bytes (v ∷ vs) ≤ suc k * 2 ^ 16
entry-le skipped vs k b h = omega arith
entry-le (bad l) vs k b h = omega arith
entry-le (good x) vs k b h = omega arith

bad_bytes-le :
    (verdict : ℕ → Verdict) (n h k : ℕ)
    → ((i : ℕ) → bad_len (verdict i) < 2 ^ 16)
    → bad_bytes (window verdict n h k) ≤ k * 2 ^ 16
unfolding window
bad_bytes-le verdict n h zero small = omega arith
bad_bytes-le verdict n h (suc k) small =
    entry-le (verdict h) _ k (small h) (bad_bytes-le verdict n ((h + 1) % n) k small)

end_batch_lem :
    (t : Thread) (vs : List Verdict) (d : Batch)
    → IsFilled t.ring
    → length vs ≡ batch_size t.ring
    → bad_bytes vs ≤ length vs * 2 ^ 16
    → d.cur ≡ (t.ring.cur + batch_size t.ring) % t.ring.num_slots
    → Reaches (start_batch t) vs d
    → end_batch t (batch_size t.ring) d ≡ after t vs
unfolding end_batch
end_batch_lem t vs d f n bound c r =
    let each = one_each vs in
    let avail = f.avail_small in
    let e : d.err_pkts ≡ bads vs = r.err_pkts_eq (omega arith) ∙ omega arith in
    let eb : d.err_bytes ≡ bad_bytes vs = r.err_bytes_eq (omega arith) ∙ omega arith in
    let ip : d.ipass ≡ skips vs = r.ipass_eq (omega arith) ∙ omega arith in
    let gb = r.good_bytes_eq in
    let left : sub32 t.ring.avail (batch_size t.ring) ≡ t.ring.avail - batch_size t.ring =
      omega arith in
    let forwarded : sub32 (sub32 (batch_size t.ring) d.ipass) d.err_pkts ≡ length (goods vs) =
      omega arith in
    let packets = ap (add_int t.totals.packets) forwarded ∙ add_int_small _ _ (omega arith) in
    let errs = ap (add_int t.totals.err_packets) e ∙ add_int_small _ (bads vs) (omega arith) in
    let err_lens =
      ap (add_int t.totals.total_err_bytes) eb ∙ add_int_small _ (bad_bytes vs) (omega arith) in
    let lens : u64 (t.totals.total_bytes + d.good_bytes)
        ≡ u64 (t.totals.total_bytes + sum_len (goods vs)) =
      omega arith in
    let copies = ap (map flush) r.copies_eq ∙ map-map flush (λ c. put_all c (goods vs)) t.copies in
    λ i. record {
      ring = record (t.ring) { avail = left i; cur = c i };
      totals = record {
        packets = packets i;
        total_bytes = lens i;
        err_packets = errs i;
        total_err_bytes = err_lens i;
      };
      copies = copies i;
    }

module _ (t : Thread) (step : DpaRing → Bufs → Batch → Batch) (bufs : Bufs) (verdict : ℕ → Verdict)
    (follows : Follows t.ring (step t.ring bufs) verdict)
    (small : (i : ℕ) → bad_len (verdict i) < 2 ^ 16) (filled : IsFilled t.ring) where
  round-after :
      round step bufs true t
      ≡ after t (window verdict t.ring.num_slots t.ring.cur (batch_size t.ring))
  unfolding round
  round-after =
      let (c, r) =
        steps-Reaches t.ring (step t.ring bufs) verdict follows filled.slots_small
          (batch_size t.ring) (start_batch t) filled.cur_in in
      let n = length-window verdict t.ring.num_slots t.ring.cur (batch_size t.ring) in
      let bound = bad_bytes-le verdict t.ring.num_slots t.ring.cur (batch_size t.ring) small in
      rw (ne→==_false t.ring.avail 0 filled.some_avail)
        (end_batch_lem t _ _ filled n (rw n bound) c r)

judge-small :
    (ring : DpaRing) (bufs : Bufs) (m offs : ℕ)
    → ((i : ℕ) → (get_or ring.slot i no_slot).len < 2 ^ 16)
    → (i : ℕ) → bad_len (judge ring bufs m offs i) < 2 ^ 16
unfolding judge
judge-small ring bufs m offs h i = elim (Bool-cases (is_bad m (get_or ring.slot i no_slot))) [
  | inl e ↦ rw e (h i)
  | inr e ↦ rw e (omega arith)
]

-- One turn of dup_proc_intel that finds packets: min(avail, 2048) slots from `cur` on are judged
-- one by one; `avail` and `cur` move by that many; each good packet is offered to every copy in
-- order, which is then published; and the counters grow by exactly the good packets, their bytes,
-- the bad ones and their bytes, modulo 2 ^ 64.
pub proc_intel-after :
    (bufs : Bufs) (t : Thread)
    → IsFilled t.ring
    → proc_intel bufs true t
      ≡ after t (window (verdict_intel t.ring bufs) t.ring.num_slots t.ring.cur (batch_size t.ring))
unfolding proc_intel
proc_intel-after bufs t f =
    round-after t step_intel bufs (verdict_intel t.ring bufs) (step_intel-Follows t.ring bufs)
      (unfold verdict_intel in judge-small t.ring bufs _ 0 f.lens_small) f

verdict_bnx2-small :
    (ring : DpaRing) (bufs : Bufs)
    → ((i : ℕ) → (get_or ring.slot i no_slot).len < 2 ^ 16)
    → (i : ℕ) → bad_len (verdict_bnx2 ring bufs i) < 2 ^ 16
unfolding verdict_bnx2
verdict_bnx2-small ring bufs h i = elim (Bool-cases (is_page_end ring i)) [
  | inl e ↦ rw e (omega arith)
  | inr e ↦ rw e (judge-small ring bufs _ bnx2_rx_offset h i)
]

-- Slot i of the kernel's ring stands for the card's descriptor (i - hw_ofs) modulo the number of slots;
-- of each 256 descriptors the last holds no packet, and any other slot is judged.
pub slot_verdict : DpaRing → Bufs → ℕ → Verdict
slot_verdict ring bufs i =
    if (i + ring.num_slots - ring.hw_ofs) % ring.num_slots % 256 == 255
    then skipped
    else judge ring bufs (u16 (ring.buf_size + 2 ^ 16 - 18)) 18 i

hw_cur-eq :
    (ring : DpaRing) (i : ℕ)
    → ring.num_slots ≤ 2 ^ 30
    → ring.hw_ofs < ring.num_slots
    → i < ring.num_slots
    → hw_cur ring i ≡ (i + ring.num_slots - ring.hw_ofs) % ring.num_slots
unfolding hw_cur ltb_i32
hw_cur-eq ring i small ofs inside =
    ground (arith, mod_cases (i + ring.num_slots - ring.hw_ofs) ring.num_slots)

verdict_bnx2-eq :
    (ring : DpaRing) (bufs : Bufs) (i : ℕ)
    → ring.num_slots ≤ 2 ^ 30
    → ring.hw_ofs < ring.num_slots
    → i < ring.num_slots
    → verdict_bnx2 ring bufs i ≡ slot_verdict ring bufs i
unfolding verdict_bnx2 slot_verdict is_page_end
verdict_bnx2-eq ring bufs i small ofs inside =
    rw
      (
        hw_cur-eq ring i small ofs inside,
        bit_and-low_mask 8 ((i + ring.num_slots - ring.hw_ofs) % ring.num_slots),
      )
      refl

window-agree {ℓ} :
    {A : Type ℓ} (f g : ℕ → A) (n h k : ℕ)
    → ((i : ℕ) → i < n → f i ≡ g i)
    → h < n
    → window f n h k ≡ window g n h k
unfolding window
window-agree f g n h zero same inside = refl
window-agree f g n h (suc k) same inside =
    ap₂ (λ x xs. x ∷ xs) (same h inside)
      (window-agree f g n ((h + 1) % n) k same (mod-lt (h + 1) (omega (arith, inside))))

-- One turn of dup_proc_bnx2 that finds packets, on a ring of at most 2 ^ 30 slots whose offset is below
-- that number: as for dup_proc_intel, but a slot that stands for the last of each 256 descriptors of
-- the card counts neither as a packet nor as an error; and a packet begins at byte 18.
pub proc_bnx2-after :
    (bufs : Bufs) (t : Thread)
    → IsFilled t.ring
    → t.ring.num_slots ≤ 2 ^ 30
    → t.ring.hw_ofs < t.ring.num_slots
    → proc_bnx2 bufs true t
      ≡ after t (window (slot_verdict t.ring bufs) t.ring.num_slots t.ring.cur (batch_size t.ring))
unfolding proc_bnx2
proc_bnx2-after bufs t f small ofs =
    round-after t step_bnx2 bufs (verdict_bnx2 t.ring bufs) (step_bnx2-Follows t.ring bufs)
      (verdict_bnx2-small t.ring bufs f.lens_small) f
    ∙ ap (after t) (
        window-agree (verdict_bnx2 t.ring bufs) (slot_verdict t.ring bufs) t.ring.num_slots
          t.ring.cur (batch_size t.ring)
          (λ i inside. verdict_bnx2-eq t.ring bufs i small ofs inside) f.cur_in)
