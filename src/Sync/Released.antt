-- ===== src/Sync/Released.antt =====
-- The second half of igb_dpa_rx_sync (drivers/igb-3.0.6/igb_dpa.h): slots that the process has
-- released go back to the card.
use dpa.Prelude.{
  ℕ, zero, suc, ◌+◌, ◌-◌, ◌%◌, ◌^◌, ◌≤◌, ◌<◌, ◌≡◌, ◌≢◌, List, some, ap, ap₂, sym, ◌∙◌, arith,
  get_or, set, ne→==_false, ==_refl,
}
use native.Mathlib.Nat.{mod-lt, mod-eq_of_lt, add-zero}
use dpa.Prelude.Mod.{mod_cases, advance_twice, advance_self}
use dpa.Prelude.Word.{add32}
use dpa.Ring.{DpaSlot, no_slot, Kring}
use dpa.Sync.{
  RxDesc, no_desc, Env, next_slot, buf_vpa, refilled, refill, checked_reserved, release_to,
}
use dpa.Sync.Harvested.{next_slot-eq}

-- All slots have a buffer other than buffer 0.
abbrev pub HasBuffers : Env → List DpaSlot → ℕ → Type 0
HasBuffers env slot size =
    (i : ℕ) → i < size → (buf_vpa env (get_or slot i no_slot)).vaddr ≢ env.buffer_base

module _ (env : Env) (slot : List DpaSlot) (size u : ℕ) (small : size ≤ 2 ^ 30)
    (bufs : HasBuffers env slot size) where
  -- The loop refills one descriptor for each slot from `k` up to `u`.
  pub refill-run :
      (m f : ℕ) (desc : List RxDesc) (k n i : ℕ)
      → k < size
      → n < size
      → m < size
      → m < f
      → i + m < 2 ^ 32
      → u ≡ (k + m) % size
      → (desc' : List RxDesc) × (refill env slot (size - 1) u f desc k n i
          ≡ some (refilled desc' ((n + m) % size) (i + m)))
  unfolding refill
  refill-run m zero desc k n i ink inn ms lt c e = absurd (omega arith)
  refill-run zero (suc f) desc k n i ink inn ms lt c e =
      let here : u ≡ k = e ∙ rw add-zero (mod-eq_of_lt ink) in
      let same_n : n ≡ (n + 0) % size = sym (rw add-zero (mod-eq_of_lt inn)) in
      (desc, rw (here, ==_refl k) (ap some (ap₂ (refilled desc) same_n (omega arith))))
  refill-run (suc m) (suc f) desc k n i ink inn ms lt c e =
      let on : k ≢ u =
        λ p. absurd (omega (arith, advance_self k (suc m) size ink ms (sym (p ∙ e)))) in
      let nk = next_slot-eq size k ink small in
      let nn = next_slot-eq size n inn small in
      let k' = next_slot (size - 1) k in
      let n' = next_slot (size - 1) n in
      let far : (n' + m) % size ≡ (n + suc m) % size =
        ap (λ t. (t + m) % size) nn
        ∙ advance_twice n 1 m size
        ∙ ap (λ t. (n + t) % size) (omega arith) in
      let sum : add32 i 1 + m ≡ i + suc m = omega arith in
      let rest : u ≡ (k' + m) % size =
        e
        ∙ ap (λ t. t % size) (omega arith)
        ∙ sym (advance_twice k 1 m size)
        ∙ sym (ap (λ t. (t + m) % size) nk) in
      let item = buf_vpa env (get_or slot k no_slot) in
      let old = get_or desc n no_desc in
      let (desc', r) =
        refill-run m f (set desc n (record old { status_error = 0; pkt_addr = item.paddr })) k' n'
          (add32 i 1) (rw nk (mod-lt _ (omega arith))) (rw nn (mod-lt _ (omega arith)))
          (omega arith) (omega arith) (omega (arith, sum)) rest in
      (
        desc',
        rw (ne→==_false k u on, ne→==_false item.vaddr env.buffer_base (bufs k ink))
            (r ∙ ap some (ap₂ (refilled desc') far sum)),
      )

-- What the process reserved is believed if it fits beside what is available.
pub checked_reserved-eq :
    (kr : Kring)
    → kr.ring.reserved + kr.ring.avail < kr.nkr_num_slots
    → kr.nkr_num_slots ≤ 2 ^ 30
    → checked_reserved kr ≡ kr.ring.reserved
unfolding checked_reserved
checked_reserved-eq kr fits small = ground arith

pub release_to-eq :
    (kr : Kring) (r : ℕ)
    → r < kr.nkr_num_slots
    → kr.ring.cur < kr.nkr_num_slots
    → kr.nkr_num_slots ≤ 2 ^ 30
    → release_to kr r ≡ (kr.ring.cur + kr.nkr_num_slots - r) % kr.nkr_num_slots
unfolding release_to
release_to-eq kr r inr_ inc small =
    ground (arith, mod_cases (kr.ring.cur + kr.nkr_num_slots - r) kr.nkr_num_slots)
