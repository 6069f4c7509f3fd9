-- ===== src/Entry.antt =====
-- kernel/dpa_main.c: the ways into the module. Its parameters (dpa_param_init), loading and unloading
-- (dpa_init, dpa_exit), and the calls on /dev/dpa (dpa_ioctl, dpa_mmap).
pub mod Ioctl
pub mod Limits
pub mod Mapped
mod Tests
use dpa.Prelude.{
  ℕ, zero, suc, ◌+◌, ◌-◌, ◌*◌, ◌/◌, ◌%◌, ◌^◌, List, [], ◌∷◌, ◌++◌, Bool, true, false, not, ◌&&◌,
  Option, none, some, if◌then◌else◌, ◌==◌, get_or, min, max,
}
use dpa.Prelude.Word.{u8, u16, u32, u64, add32}
use dpa.Ring.{DpaSlot}
use dpa.Netdev.{
  Errno, efault, enotty, enxio, eopnotsupp, einval, eagain, enomem, driver_error, NetDev, Net,
  Acquired, got, failed, acquire_netdev, release_netdev, no_rx_ring,
}
use dpa.Pool.{ObjPool, no_item}
use dpa.Pool.Build.{Kernel}
use dpa.Memory.{MemAllocator, if_offset}
use dpa.Memory.Setup.{Params, Init, mem_init, mem_free}
use dpa.Session.{DpaPriv, ioctl_rx_sync}
use dpa.Registry.{FilePriv, KernelState, dev_of, Registered, reg_if, destructor}

-- min_t and max_t of the kernel, and ALIGN, which rounds up
abbrev clamp_u32 : ℕ → ℕ → ℕ → ℕ
clamp_u32 lo hi x = max (min x hi) lo

abbrev align_up : ℕ → ℕ → ℕ
align_up x k = (x + (k - 1)) / k * k

-- The parameters as they are given, and dpa_num_rx_descs beside those of the memory
pub record Loaded : Type 0 where
  pub params : Params
  pub num_rx_descs : ℕ

-- dpa_param_init
unfoldable pub param_init : Loaded → Loaded
param_init l =
    let ifs = clamp_u32 1 16 l.params.num_ifs in
    let queues = clamp_u32 1 16 l.params.num_queues in
    let descs = clamp_u32 256 4096 l.num_rx_descs in
    record {
      params = record {
        num_ifs = ifs;
        num_queues = queues;
        num_bufs = u32 (u32 (ifs * queues) * descs);
        buf_size = u32 (align_up (clamp_u32 1024 16384 l.params.buf_size) 1024);
      };
      num_rx_descs = descs;
    }

-- dpa_init: the parameters, the allocator, the pages given back, and the error; whether kmalloc
-- succeeds, what misc_register returns, and the kernel's memory, are arguments.
pub record Inited : Type 0 where
  pub loaded : Loaded
  pub allocator : Option MemAllocator
  pub freed : List ℕ
  pub error : Option Errno

unfoldable pub init_device : Loaded → Option Errno → Init → Inited
init_device l refused i = elim i.allocator [
  | none ↦ record { loaded = l; allocator = none; freed = i.freed; error = some enomem }
  | some a ↦ elim refused [
    | none ↦ record { loaded = l; allocator = some a; freed = i.freed; error = none }
    | some e ↦ record {
      loaded = l;
      allocator = none;
      freed = i.freed ++ mem_free (some a);
      error = some e;
    }
  ]
]

unfoldable pub init : Loaded → Bool → Option Errno → Kernel → Kernel → Kernel → Inited
init l has_memory refused k_if k_ring k_buf =
    let l' = param_init l in
    init_device l' refused (mem_init l'.params has_memory k_if k_ring k_buf)

-- dpa_exit
unfoldable pub exit : Option MemAllocator → List ℕ
exit a = mem_free a

-- What one remap_pfn_range of dpa_mmap is given.
pub record Mapping : Type 0 where
  pub user : ℕ
  pub paddr : ℕ
  pub size : ℕ

-- The inner loop: n clusters of a pool, from entry `skip` of its table, to `user` on.
unfoldable pub map_clusters : ObjPool → ℕ → ℕ → ℕ → List Mapping
map_clusters p zero skip user = []
map_clusters p (suc n) skip user =
    record { user = user; paddr = (get_or p.addr_tbl skip no_item).paddr; size = p.clst_size }
    ∷ map_clusters p n (add32 skip p.clst_n_entries) (add32 user p.clst_size)

-- `user_skip` after the clusters of a pool
unfoldable pub skip_pool : ℕ → ℕ → ℕ → ℕ
skip_pool size zero user = user
skip_pool size (suc n) user = skip_pool size n (add32 user size)

unfoldable pub mappings : MemAllocator → List Mapping
mappings a =
    let rings = skip_pool a.if_pool.clst_size a.if_pool.num_clusters 0 in
    let bufs = skip_pool a.ring_pool.clst_size a.ring_pool.num_clusters rings in
    map_clusters a.if_pool a.if_pool.num_clusters 0 0
    ++ (map_clusters a.ring_pool a.ring_pool.num_clusters 0 rings
        ++ map_clusters a.buf_pool a.buf_pool.num_clusters 0 bufs)

-- dpa_mmap: what was mapped before remap_pfn_range refused, if it does, and the error
unfoldable pub map_all : (Mapping → Bool) → List Mapping → List Mapping × Option Errno
map_all remap [] = ([], none)
map_all remap (m ∷ ms) =
    let rest = map_all remap ms in if remap m then (m ∷ rest.0, rest.1) else ([], some eagain)

unfoldable pub mmap : (Mapping → Bool) → MemAllocator → List Mapping × Option Errno
mmap remap a = map_all remap (mappings a)
