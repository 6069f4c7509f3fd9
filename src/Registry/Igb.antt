-- ===== src/Registry/Igb.antt =====
-- drivers/igb-3.0.6/igb_dpa.h, igb_dpa_reg: the callback by which the igb driver switches an
-- interface to this module and back. What it does to the card is left out.
use dpa.Prelude.{Bool, true, not, ◌&&◌, Option, none, some, if◌then◌else◌, ◌==◌, arith}
use dpa.Netdev.{Errno, einval, NetDev}
use dpa.Registry.Inv.{Switches}

-- Whether the interface is up, dpa_flag_alter_promisc, and what dev_set_promiscuity returns
pub record IgbEnv : Type 0 where
  pub up : Bool
  pub alter_promisc : Bool
  pub promiscuity : Option Errno

unfoldable pub igb_reg : IgbEnv → Bool → NetDev → NetDev × Option Errno
igb_reg env reg d =
    if d.hook == 0
    then (d, some einval)
    else if not env.up && reg
    then (d, some einval)
    else (record d { enabled = reg }, (if env.alter_promisc then env.promiscuity else none))

-- The igb driver switches an interface that is up, whether or not the change of promiscuity succeeds.
pub igb_reg-Switches :
    Switches {Env = Bool × Option Errno}
      (λ env. igb_reg (record { up = true; alter_promisc = env.0; promiscuity = env.1 }))
unfolding igb_reg
igb_reg-Switches = record { switch = λ env on d h. ground (arith) }
