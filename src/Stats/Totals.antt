-- ===== src/Stats/Totals.antt =====
-- The sums that the drivers' callbacks get_rx_stats leave (igb_dpa.h).
use dpa.Prelude.{
  ℕ, zero, suc, ◌+◌, ◌^◌, ◌<◌, ◌≡◌, Bool, true, false, not, some, bit_and, if◌then◌else◌, ◌==◌,
  get_or, refl, ap, ap₂, sym, ◌∙◌, arith, subst,
}
use native.Mathlib.Nat.{zero-add, mod-add-mod, add_assoc}
use dpa.Prelude.Word.{u64}
use dpa.Netdev.{DpaAdapter, NetDev, no_rx_ring, RxRing}
use dpa.Entry.Ioctl.{IocPara}
use dpa.Stats.{
  CardStats, has, stats_range, add_ring, add_rings, with_card, stats_in, igb_get_rx_stats,
}

-- A counter of n rings from ring i on, added up
abbrev pub total : (RxRing → ℕ) → DpaAdapter → ℕ → ℕ → ℕ
total counter dadp zero i = 0
total counter dadp (suc n) i =
    counter (get_or dadp.rx_rings i no_rx_ring) + total counter dadp n (i + 1)

abbrev pub packets_of : RxRing → ℕ
packets_of r = r.kring.total_packets

abbrev pub bytes_of : RxRing → ℕ
bytes_of r = r.kring.total_bytes

-- What the loop leaves
record Adds (dadp : DpaAdapter) (n i : ℕ) (para para' : IocPara) : Type 0 where
  packets :
      para'.packets
      ≡ (if has para 1 then u64 (para.packets + total packets_of dadp n i) else para.packets)
  bytes :
      para'.bytes ≡ (if has para 2 then u64 (para.bytes + total bytes_of dadp n i) else para.bytes)
  same :
      (para'.word1 ≡ para.word1)
      × (para'.drops ≡ para.drops)
      × (para'.errors ≡ para.errors)
      × (para'.enabled ≡ para.enabled)

one_more :
    (b : Bool) (x y t : ℕ)
    → (if b then u64 ((if b then u64 (x + y) else x) + t) else (if b then u64 (x + y) else x))
      ≡ (if b then u64 (x + (y + t)) else x)
one_more true x y t = mod-add-mod (x + y) (2 ^ 64) t ∙ ap u64 (add_assoc x y t)
one_more false x y t = refl

none_more : (b : Bool) (x : ℕ) → x < 2 ^ 64 → x ≡ (if b then u64 (x + 0) else x)
none_more true x h = omega arith
none_more false x h = refl

still_small : (b : Bool) (x y : ℕ) → x < 2 ^ 64 → (if b then u64 (x + y) else x) < 2 ^ 64
still_small true x y h = omega arith
still_small false x y h = h

add_rings-Adds :
    (dadp : DpaAdapter) (n i : ℕ) (para : IocPara)
    → para.packets < 2 ^ 64
    → para.bytes < 2 ^ 64
    → Adds dadp n i para (add_rings dadp n i para)
unfolding add_rings add_ring
add_rings-Adds dadp zero i para hp hb = record {
  packets = none_more (has para 1) para.packets hp;
  bytes = none_more (has para 2) para.bytes hb;
  same = (refl, refl, refl, refl);
}
add_rings-Adds dadp (suc n) i para hp hb =
    let p = get_or dadp.rx_rings i no_rx_ring in
    let ih =
      add_rings-Adds dadp n (i + 1) (add_ring dadp i para)
        (still_small (has para 1) para.packets (packets_of p) hp)
        (still_small (has para 2) para.bytes (bytes_of p) hb) in
    record {
      packets =
          ih.packets
          ∙ one_more (has para 1) para.packets (packets_of p) (total packets_of dadp n (i + 1));
      bytes =
          ih.bytes ∙ one_more (has para 2) para.bytes (bytes_of p) (total bytes_of dadp n (i + 1));
      same = ih.same;
    }

-- What the callback leaves in a structure whose counters are 0
pub record Reports (card : CardStats) (d : NetDev) (first n : ℕ) (para : IocPara)
    (r : IocPara × Bool) : Type 0 where
  pub done : r.1 ≡ true
  pub packets : r.0.packets ≡ (if has para 1 then u64 (total packets_of d.adapter n first) else 0)
  pub bytes : r.0.bytes ≡ (if has para 2 then u64 (total bytes_of d.adapter n first) else 0)
  pub drops : r.0.drops ≡ (if has para 4 then card.missed else 0)
  pub errors : r.0.errors ≡ (if has para 8 then card.bad else para.errors)
  pub enabled : r.0.enabled ≡ para.enabled

with_card-Reports :
    (card : CardStats) (d : NetDev) (first n : ℕ) (para para' : IocPara)
    → para.packets ≡ 0
    → para.bytes ≡ 0
    → para.drops ≡ 0
    → Adds d.adapter n first para para'
    → Reports card d first n para (with_card card para', true)
unfolding with_card
with_card-Reports card d first n para para' p b dr a =
    let (word, drops, errors, enabled) = a.same in
    record {
      done = refl;
      packets =
          a.packets
          ∙ ap (λ t. if has para 1 then u64 (t + total packets_of d.adapter n first) else t) p
          ∙ ap (λ t. if has para 1 then u64 t else 0)
              (zero-add (total packets_of d.adapter n first));
      bytes =
          a.bytes
          ∙ ap (λ t. if has para 2 then u64 (t + total bytes_of d.adapter n first) else t) b
          ∙ ap (λ t. if has para 2 then u64 t else 0) (zero-add (total bytes_of d.adapter n first));
      drops = ap₂ (λ w t. if not (bit_and w 4 == 0) then card.missed else t) word (drops ∙ dr);
      errors = ap₂ (λ w t. if not (bit_and w 8 == 0) then card.bad else t) word errors;
      enabled = enabled;
    }

pub igb_get_rx_stats-Reports :
    (card : CardStats) (d : NetDev) (first n : ℕ) (para : IocPara)
    → para.packets ≡ 0
    → para.bytes ≡ 0
    → para.drops ≡ 0
    → card.carrier_ok ≡ true
    → stats_range d.adapter para ≡ some (first, n)
    → Reports card d first n para (igb_get_rx_stats card d para)
unfolding igb_get_rx_stats stats_in
igb_get_rx_stats-Reports card d first n para p b dr carrier range =
    let summed = add_rings d.adapter n first para in
    subst (λ o. Reports card d first n para (stats_in card d.adapter para o)) (sym range)
      (subst
        (λ ok.
          Reports card d first n para (if ok then (with_card card summed, true) else (para, false)))
        (sym carrier)
        (with_card-Reports card d first n para summed p b dr
          (add_rings-Adds d.adapter n first para (omega (arith, p)) (omega (arith, b)))))
