-- ===== src/Registry/Inv.antt =====
-- What a registration (kernel/dpa_main.c, dpa_reg_if under its lock) does to the interface, for a
-- driver that always switches the interface when it is asked to.
use dpa.Prelude.{
  ℕ, ◌≡◌, ◌≢◌, inl, inr, List, length, Bool, true, false, Option, none, some, if◌then◌else◌, ◌==◌,
  Bool-cases, ==_iff, ==_false→ne, refl, sym, ◌∙◌, subst,
}
use dpa.Prelude.Word.{add32}
use dpa.Window.{update_self}
use dpa.Ring.{DpaSlot}
use dpa.Netdev.{Errno, enomem, ebusy, NetDev}
use dpa.Memory.{NewIf, new_if}
use dpa.Memory.Built.{SameAdapter}
use dpa.Memory.Share.{Shares, made-Shares}
use dpa.Session.{DpaPriv}
use dpa.Registry.{
  FilePriv, KernelState, dev_of, set_dev, Outcome, refused, registered, undo, switched_on,
  with_new_if, with_range, reg_locked,
}

-- The driver's callback, on an interface with an adapter: it sets or clears the flag, whatever it
-- returns.
pub record Switches {Env : Type 0} (reg : Env → Bool → NetDev → NetDev × Option Errno)
    : Type 0 where
  pub switch :
      (env : Env) (on : Bool) (d : NetDev)
      → d.hook ≢ 0
      → (reg env on d).0 ≡ record d { enabled = on }

-- An adapter with another number of users, and otherwise the same but for its rings.
pub record Counts (d e : NetDev) (refs : ℕ) : Type 0 where
  pub refs_eq : d.adapter.refs ≡ refs
  pub same : SameAdapter d.adapter e.adapter
  pub rings : length d.adapter.rx_rings ≡ length e.adapter.rx_rings
  pub hook : d.hook ≡ e.hook

module _ {Env : Type 0} (reg : Env → Bool → NetDev → NetDev × Option Errno) (law : Switches reg)
    (buf_size : ℕ) (old : ℕ → List DpaSlot) (i : ℕ) where
  abbrev pub Facts : NetDev → Option Outcome → Type 0
  Facts d none = Unit {0}
  Facts d (some (refused e s)) =
      Counts (dev_of s i) d d.adapter.refs × ((dev_of s i).enabled ≡ d.enabled)
  Facts d (some (registered p s)) =
      (d.adapter.refs ≢ d.adapter.num_rx_rings)
      × Counts (dev_of s i) d (add32 d.adapter.refs 1)
      × ((dev_of s i).enabled ≡ true)
  Facts d (some (undo e p s)) =
      (d.adapter.refs ≢ d.adapter.num_rx_rings)
      × Counts (dev_of s i) d (add32 d.adapter.refs 1)
      × ((dev_of s i).enabled ≡ true)
      × (d.enabled ≡ false)

  set_self : (s : KernelState) (d : NetDev) → dev_of (set_dev s i d) i ≡ d
  set_self s d = update_self s.net.devs i d

  switched_on-Facts :
      (d d' : NetDev) (dif : ℕ) (range : DpaPriv) (s : KernelState) (r : NetDev × Option Errno)
      → d.adapter.refs ≢ d.adapter.num_rx_rings
      → d.enabled ≡ false
      → Counts d' d (add32 d.adapter.refs 1)
      → r.0 ≡ record d' { enabled = true }
      → Facts d (some (switched_on reg (record { dif = dif; dev = i; range = range }) s r))
  unfolding switched_on
  switched_on-Facts d d' dif range s (d'', none) room off c e =
      let (k, on) =
        subst (λ x. Counts x d (add32 d.adapter.refs 1) × (x.enabled ≡ true))
          (sym (set_self s d'' ∙ e))
          (record { refs_eq = c.refs_eq; same = c.same; rings = c.rings; hook = c.hook }, refl) in
      (room, k, on)
  switched_on-Facts d d' dif range s (d'', some err) room off c e =
      let (k, on) =
        subst (λ x. Counts x d (add32 d.adapter.refs 1) × (x.enabled ≡ true))
          (sym (set_self s d'' ∙ e))
          (record { refs_eq = c.refs_eq; same = c.same; rings = c.rings; hook = c.hook }, refl) in
      (room, k, on, off)

  -- The outcomes by the tests' results.
  abbrev by_flag : Env → KernelState → FilePriv → NewIf → Bool → Option Outcome
  by_flag env s p t b =
      let d' : NetDev = record (dev_of s i) { adapter = t.adapter } in
      let s' : KernelState = record (set_dev s i d') { pools = t.pools } in
      if b then some (registered p s') else some (switched_on reg p s' (reg env true d'))

  abbrev by_dif : Env → KernelState → FilePriv → NewIf → Bool → Option Outcome
  by_dif env s p t b =
      let d' : NetDev = record (dev_of s i) { adapter = t.adapter } in
      let s' : KernelState = record (set_dev s i d') { pools = t.pools } in
      if b then some (refused enomem s') else by_flag env s p t d'.enabled

  with_new_if-Facts :
      (env : Env) (s : KernelState) (range : DpaPriv) (t : Option NewIf)
      → (dev_of s i).hook ≢ 0
      → (dev_of s i).adapter.refs ≢ (dev_of s i).adapter.num_rx_rings
      → ((n : NewIf) → t ≡ some n → Shares buf_size old s.pools (dev_of s i).adapter n)
      → Facts (dev_of s i) (with_new_if reg env s i range t)
  unfolding with_new_if
  with_new_if-Facts env s range none hooked room shares = tt
  with_new_if-Facts env s range (some t) hooked room shares =
      let d = dev_of s i in
      let d' : NetDev = record d { adapter = t.adapter } in
      let s' : KernelState = record (set_dev s i d') { pools = t.pools } in
      let p : FilePriv = record { dif = t.dif; dev = i; range = range } in
      let f = shares t refl in
      let self : dev_of s' i ≡ d' = set_self s d' in
      let counts = λ (n : ℕ) (e : t.adapter.refs ≡ n).
        let c : Counts d' d n = record { refs_eq = e; same = f.0; rings = f.1; hook = refl } in c in
      elim (Bool-cases (t.dif == 0)) [
        | inl no_dif ↦
            subst (λ b. Facts d (by_dif env s p t b)) (sym no_dif)
              (subst (λ x. Counts x d d.adapter.refs × (x.enabled ≡ d.enabled)) (sym self)
                (counts d.adapter.refs (f.2 ((==_iff _ _).0 no_dif)), refl))
        | inr has_dif ↦
            subst (λ b. Facts d (by_dif env s p t b)) (sym has_dif)
              (let more = f.3 (==_false→ne _ _ has_dif) in
                elim (Bool-cases d.enabled) [
                  | inl on ↦
                      let (k, o) =
                        subst (λ x. Counts x d (add32 d.adapter.refs 1) × (x.enabled ≡ true))
                          (sym self) (counts (add32 d.adapter.refs 1) more, on) in
                      subst (λ b. Facts d (by_flag env s p t b)) (sym on) (room, k, o)
                  | inr off ↦
                      subst (λ b. Facts d (by_flag env s p t b)) (sym off)
                        (switched_on-Facts d d' t.dif range s' (reg env true d') room off
                          (counts (add32 d.adapter.refs 1) more) (law.switch env true d' hooked))
                ])
      ]

  unchanged : (d : NetDev) → Counts d d d.adapter.refs
  unchanged d = record {
    refs_eq = refl;
    same = record {
      magic = refl;
      excl_locks = refl;
      dev_model = refl;
      num_rx_rings = refl;
      num_rx_descs = refl;
    };
    rings = refl;
    hook = refl;
  }

  with_range-Facts :
      (env : Env) (s : KernelState) (range : Option DpaPriv)
      → (dev_of s i).hook ≢ 0
      → (dev_of s i).adapter.num_rx_rings ≡ length (dev_of s i).adapter.rx_rings
      → Facts (dev_of s i) (with_range reg buf_size old env s i range)
  unfolding with_range
  with_range-Facts env s none hooked rings = (unchanged (dev_of s i), refl)
  with_range-Facts env s (some range) hooked rings =
      let d = dev_of s i in
      let made = new_if buf_size old s.pools d.adapter in
      elim (Bool-cases (d.adapter.refs == d.adapter.num_rx_rings)) [
        | inl full ↦
            subst
              (λ b.
                Facts d (if b then some (refused ebusy s) else with_new_if reg env s i range made))
              (sym full) (unchanged d, refl)
        | inr room ↦
            subst
              (λ b.
                Facts d (if b then some (refused ebusy s) else with_new_if reg env s i range made))
              (sym room)
              (with_new_if-Facts env s range made hooked (==_false→ne _ _ room)
                (λ n e. made-Shares buf_size old s.pools d.adapter rings e))
      ]

  pub reg_locked-Facts :
      (env : Env) (s : KernelState) (queue_id : ℕ)
      → (dev_of s i).hook ≢ 0
      → (dev_of s i).adapter.num_rx_rings ≡ length (dev_of s i).adapter.rx_rings
      → Facts (dev_of s i) (reg_locked reg buf_size old env s i queue_id)
  unfolding reg_locked
  reg_locked-Facts env s queue_id hooked rings = with_range-Facts env s _ hooked rings
