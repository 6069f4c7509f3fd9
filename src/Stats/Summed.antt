-- ===== src/Stats/Summed.antt =====
-- DIOCGETRXSTATS (kernel/dpa_main.c) with the drivers' counters.
use dpa.Prelude.{
  ℕ, ◌<◌, ◌≡◌, Bool, true, false, Option, none, some, bit_and, if◌then◌else◌, ◌==◌, refl, ap, sym,
  arith, subst, ◌≢◌, ◌⊎◌, inl, inr, ◌≤◌, leb, Bool-cases, ==_iff, ==_false→ne,
}
use dpa.Prelude.Word.{u64, u16}
use dpa.Netdev.{DpaAdapter, NetDev, Net, got, acquire_netdev, einval}
use dpa.Registry.{FilePriv, KernelState}
use dpa.Entry.Ioctl.{IocPara, Answer, stats_of, ioctl_get_rx_stats}
use dpa.Stats.Totals.{total, packets_of, bytes_of, igb_get_rx_stats-Reports}
use dpa.Stats.{CardStats, has, stats_range, stats_in, igb_get_rx_stats}

-- The answer of DIOCGETRXSTATS
abbrev pub Answers : CardStats → NetDev → ℕ → ℕ → IocPara → Answer → Type 0
Answers card d first n para a =
    (a.error ≡ none)
    × (a.para.packets ≡ (if has para 1 then u64 (total packets_of d.adapter n first) else 0))
    × (a.para.bytes ≡ (if has para 2 then u64 (total bytes_of d.adapter n first) else 0))
    × (a.para.drops ≡ (if has para 4 then card.missed else 0))
    × (a.para.errors ≡ (if has para 8 then card.bad else para.errors))
    × (a.para.enabled ≡ (if d.enabled then 1 else 0))

module _ {Name : Type 0} (find : Name → Option ℕ) (is_live : ℕ → Bool) (is_empty : Name → Bool)
    (s : KernelState) (priv : Option FilePriv) (card : CardStats) (net : Net) (i first n : ℕ)
    (carrier : card.carrier_ok ≡ true) where
  stats_of-igb :
      (para : IocPara)
      → para.packets ≡ 0
      → para.bytes ≡ 0
      → para.drops ≡ 0
      → stats_range (net.devs i).adapter para ≡ some (first, n)
      → Answers card
          (net.devs i)
          first
          n
          para
          (stats_of find is_live is_empty (igb_get_rx_stats card) s priv para (net, got i))
  unfolding stats_of stats_range
  stats_of-igb para p b dr range =
      let d = net.devs i in
      let para' = record para {
        num_rx_queues = u16 d.adapter.num_rx_rings;
        num_rx_slots = d.adapter.num_rx_descs;
        dev_model = d.adapter.dev_model;
        enabled = if d.enabled then 1 else 0;
      } in
      let r = igb_get_rx_stats-Reports card d first n para' p b dr carrier range in
      (
        ap (λ ok. if ok then none else some einval) r.done,
        r.packets,
        r.bytes,
        r.drops,
        r.errors,
        r.enabled,
      )

  -- The rings that the driver takes
  answered :
      (name : Name) (para : IocPara)
      → is_empty name ≡ false
      → acquire_netdev find is_live s.net name ≡ (net, got i)
      → stats_range (net.devs i).adapter para ≡ some (first, n)
      → Answers card
          (net.devs i)
          first
          n
          para
          (ioctl_get_rx_stats find is_live is_empty (igb_get_rx_stats card) s priv name para)
  unfolding ioctl_get_rx_stats stats_range
  answered name para named found range =
      let para' = record para {
        mem_size = s.pools.total_size;
        num_rx_queues = 0;
        num_rx_slots = 0;
        packets = 0;
        bytes = 0;
        drops = 0;
      } in
      let run = stats_of find is_live is_empty (igb_get_rx_stats card) s priv para' in
      let none_asked : Answer = record { state = s; priv = priv; para = para'; error = none } in
      subst
        (λ b.
          Answers card (net.devs i) first n para
            (if b then none_asked else run (acquire_netdev find is_live s.net name)))
        (sym named)
        (subst (λ t. Answers card (net.devs i) first n para (run t)) (sym found)
          (stats_of-igb para' refl refl refl range))

-- What is asked for: all queues, one queue without drops and errors, or what is refused
abbrev pub ForAll : IocPara → Type 0
ForAll para = bit_and para.word0 4096 ≢ 0

abbrev pub ForOne : DpaAdapter → IocPara → Type 0
ForOne dadp para =
    (bit_and para.word0 4096 ≡ 0)
    × (has para 4 ≡ false)
    × (has para 8 ≡ false)
    × (bit_and para.word0 4095 < dadp.num_rx_rings)

abbrev pub Refused : DpaAdapter → IocPara → Type 0
Refused dadp para =
    (bit_and para.word0 4096 ≡ 0)
    × ((has para 4 ≡ true) ⊎ (has para 8 ≡ true) ⊎ (dadp.num_rx_rings ≤ bit_and para.word0 4095))

abbrev Ranged : DpaAdapter → IocPara → Option (ℕ × ℕ) → Type 0
Ranged dadp para o =
    (ForAll para × (o ≡ some (0, dadp.num_rx_rings)))
    ⊎ (ForOne dadp para × (o ≡ some (bit_and para.word0 4095, 1)))
    ⊎ (Refused dadp para × (o ≡ none))

leb-le : (a b : ℕ) → leb a b ≡ true → a ≤ b
leb-le a b e = grind (arith, e)

leb-gt : (a b : ℕ) → leb a b ≡ false → b < a
leb-gt a b e = grind (arith, e)

stats_range-Ranged : (dadp : DpaAdapter) (para : IocPara) → Ranged dadp para (stats_range dadp para)
unfolding stats_range
stats_range-Ranged dadp para =
    let id = bit_and para.word0 4095 in
    elim (Bool-cases (bit_and para.word0 4096 == 0)) [
      | inr all ↦ rw (all) (inl (==_false→ne _ 0 all, refl))
      | inl one ↦
          let flag = (==_iff _ 0).0 one in
          elim (Bool-cases (has para 4)) [
            | inl d ↦ rw (one, d) (inr (inr ((flag, inl refl), refl)))
            | inr d ↦ elim (Bool-cases (has para 8)) [
              | inl e ↦ rw (one, d, e) (inr (inr ((flag, inr (inl refl)), refl)))
              | inr e ↦ elim (Bool-cases (leb dadp.num_rx_rings id)) [
                | inl l ↦ rw (one, d, e, l) (inr (inr ((flag, inr (inr (leb-le _ _ l))), refl)))
                | inr l ↦ rw (one, d, e, l) (inr (inl ((flag, refl, refl, leb-gt _ _ l), refl)))
              ]
            ]
          ]
    ]

module _ {Name : Type 0} (find : Name → Option ℕ) (is_live : ℕ → Bool) (is_empty : Name → Bool)
    (s : KernelState) (priv : Option FilePriv) (card : CardStats) (net : Net) (i : ℕ) where
  refused :
      (name : Name) (para : IocPara)
      → is_empty name ≡ false
      → acquire_netdev find is_live s.net name ≡ (net, got i)
      → stats_range (net.devs i).adapter para ≡ none
      → (ioctl_get_rx_stats find is_live is_empty (igb_get_rx_stats card) s priv name para).error
        ≡ some einval
  unfolding ioctl_get_rx_stats stats_range stats_of igb_get_rx_stats stats_in
  refused name para named found range = rw (named, found, range) refl

  -- DIOCGETRXSTATS for an interface of the igb driver that is found, on a card with a carrier. For all
  -- queues, or for one queue that the interface has, without drops and errors, it succeeds, and what is
  -- asked for is the sum over these queues of the packets and of the bytes that the module counted,
  -- modulo 2 ^ 64, and the card's drops and errors; what is not asked for is 0, but the errors are as
  -- they came. For drops or errors of one queue, or a queue that the interface has not, it fails.
  pub ioctl_get_rx_stats-igb :
      (name : Name) (para : IocPara)
      → card.carrier_ok ≡ true
      → is_empty name ≡ false
      → acquire_netdev find is_live s.net name ≡ (net, got i)
      → let d = net.devs i in
        let a = ioctl_get_rx_stats find is_live is_empty (igb_get_rx_stats card) s priv name para in
        (ForAll para × Answers card d 0 d.adapter.num_rx_rings para a)
        ⊎ (ForOne d.adapter para × Answers card d (bit_and para.word0 4095) 1 para a)
        ⊎ (Refused d.adapter para × (a.error ≡ some einval))
  ioctl_get_rx_stats-igb name para carrier named found =
      let d = net.devs i in
      elim (stats_range-Ranged d.adapter para) [
        | inl (all, range) ↦ inl (
          all,
          answered find is_live is_empty s priv card net i 0 d.adapter.num_rx_rings carrier name
              para named found range,
        )
        | inr (inl (one, range)) ↦ inr (
            inl (
              one,
              answered find is_live is_empty s priv card net i (bit_and para.word0 4095) 1 carrier
                  name para named found range,
            ))
        | inr (inr (bad, range)) ↦ inr (inr (bad, refused name para named found range))
      ]
