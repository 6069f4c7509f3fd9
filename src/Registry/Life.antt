-- ===== src/Registry/Life.antt =====
-- The life of one interface's registration (kernel/dpa_main.c), step by step: a step is what one
-- process does between taking the registration lock and giving it up.
use dpa.Prelude.{ℕ, ◌≡◌, List, ◌∷◌, ◌++◌, Bool, true, false, Option, some}
use dpa.Ring.{DpaSlot}
use dpa.Netdev.{Errno, NetDev, is_deleting}
use dpa.Registry.{
  FilePriv, KernelState, dev_of, refused, registered, undo, leave, is_last, if_free, tear_down,
  reg_locked,
}

-- The state, the files that are registered, and the processes that sleep in dpa_destructor_locked.
pub record World : Type 0 where
  pub state : KernelState
  pub files : List FilePriv
  pub sleeping : List FilePriv

module _ {Env : Type 0} (reg : Env → Bool → NetDev → NetDev × Option Errno) (buf_size : ℕ)
    (old : ℕ → List DpaSlot) (i : ℕ) where
  -- A new user has to go again: at once, or after a sleep.
  abbrev pub gone : World → KernelState → FilePriv → Bool → World
  gone w s p true = record w { state = s; sleeping = p ∷ w.sleeping }
  gone w s p false = record w { state = if_free s p.dif }

  pub data Step (w : World) : World → Type 0 where
    join :
        (env : Env) (queue_id : ℕ) (p : FilePriv) (s : KernelState)
        → is_deleting (dev_of w.state i) ≡ false
        → reg_locked reg buf_size old env w.state i queue_id ≡ some (registered p s)
        → Step w (record w { state = s; files = p ∷ w.files })
    refuse :
        (env : Env) (queue_id : ℕ) (e : Errno) (s : KernelState)
        → is_deleting (dev_of w.state i) ≡ false
        → reg_locked reg buf_size old env w.state i queue_id ≡ some (refused e s)
        → Step w (record w { state = s })
    -- The driver fails, and dpa_destructor_locked begins.
    take_back :
        (env : Env) (queue_id : ℕ) (e : Errno) (p : FilePriv) (s : KernelState)
        → is_deleting (dev_of w.state i) ≡ false
        → reg_locked reg buf_size old env w.state i queue_id ≡ some (undo e p s)
        → Step w (gone w (leave s i) p (is_last (dev_of (leave s i) i)))
    -- A file is closed, or asks for DIOCUNREGIF; it takes the lock whatever the interface is at.
    part :
        (before after : List FilePriv) (p : FilePriv)
        → w.files ≡ before ++ p ∷ after
        → Step w (
            gone
              (record w { files = before ++ after })
              (leave w.state i)
              p
              (is_last (dev_of (leave w.state i) i)))
    -- A sleeper has the lock again.
    wake :
        (env : Env) (before after : List FilePriv) (p : FilePriv)
        → w.sleeping ≡ before ++ p ∷ after
        → Step w (record w {
          state = if_free (tear_down reg env w.state i) p.dif;
          sleeping = before ++ after;
        })

  pub data Reach (start : World) : World → Type 0 where
    here : Reach start start
    next : {s t : World} → Reach start s → Step s t → Reach start t
