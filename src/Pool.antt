-- ===== src/Pool.antt =====
-- kernel/dpa_mem.c and kernel/dpa_mem.h: a pool of objects of one size in clusters of pages, with a
-- bitmap in which 1 is a free object. Addresses are 64-bit numbers, 0 is NULL; an int is its
-- two's complement pattern. The result `none` is a run past the end of the bitmap or of the table.
pub mod Bitmap
pub mod Take
pub mod Find
pub mod Total
pub mod Build
pub mod Geometry
pub mod Samples
mod Tests
use dpa.Prelude.{
  ℕ, zero, suc, ◌+◌, ◌-◌, ◌*◌, ◌/◌, ◌%◌, ◌^◌, List, [], ◌∷◌, Bool, true, false, ◌||◌, ◌&&◌, length,
  Option, none, some, bit_and, bit_or, if◌then◌else◌, ◌==◌, ltb, leb, get_or, get_elem?, set,
  replicate,
}
use dpa.Prelude.Bits.{complement}
use dpa.Prelude.Word.{u16, u32, add32, sub32, ltb_i32}
use dpa.Ring.{DpaSlot, no_slot}

-- struct addr_tbl_item
pub record AddrTblItem : Type 0 where
  pub vaddr : ℕ
  pub paddr : ℕ

abbrev pub no_item : AddrTblItem
no_item = record { vaddr = 0; paddr = 0 }

-- struct dpa_obj_pool, without its name
pub record ObjPool : Type 0 where
  pub obj_total : ℕ
  pub obj_free : ℕ
  pub clst_n_entries : ℕ
  pub num_clusters : ℕ
  pub clst_size : ℕ
  pub obj_size : ℕ
  pub mem_total : ℕ
  pub addr_tbl : List AddrTblItem
  pub bitmap : List ℕ

-- `for (j = 0, mask = 1; (cur & mask) == 0; j++, mask <<= 1)`
unfoldable pub find_bit : ℕ → ℕ → ℕ → ℕ → ℕ × ℕ
find_bit zero cur j mask = (j, mask)
find_bit (suc n) cur j mask =
    if bit_and cur mask == 0 then find_bit n cur (add32 j 1) (u32 (mask * 2)) else (j, mask)

-- The first free object of word i, which holds `cur`, is taken.
unfoldable pub with_addr : ObjPool → Option AddrTblItem → Option (ObjPool × ℕ)
with_addr p none = none
with_addr p (some item) = some (p, item.vaddr)

unfoldable pub grab_at : ObjPool → ℕ → ℕ → ℕ × ℕ → Option (ObjPool × ℕ)
grab_at p i cur found =
    with_addr
      (record p {
        bitmap = set p.bitmap i (bit_and cur (complement 32 found.1));
        obj_free = sub32 p.obj_free 1;
      })
      (get_elem? p.addr_tbl (u32 (i * 32 + found.0)))

unfoldable pub grab : ObjPool → ℕ → ℕ → Option (ObjPool × ℕ)
grab p i cur = grab_at p i cur (find_bit 32 cur 0 1)

-- One turn of `while (vaddr == NULL)` before the turns that follow, `again`: the word is empty or
-- not, and the object taken has no address or one.
abbrev retry : (ObjPool → Option (ObjPool × ℕ)) → ObjPool × ℕ → Bool → Option (ObjPool × ℕ)
retry again g true = again g.0
retry again g false = some g

abbrev settle : (ObjPool → Option (ObjPool × ℕ)) → Option (ObjPool × ℕ) → Option (ObjPool × ℕ)
settle again none = none
settle again (some g) = retry again g (g.1 == 0)

abbrev visit : (ObjPool → ℕ → Option (ObjPool × ℕ)) → ObjPool → ℕ → ℕ → Bool → Option (ObjPool × ℕ)
visit again p i cur true = again p (add32 i 1)
visit again p i cur false = settle (λ q. again q i) (grab p i cur)

abbrev turn : (ObjPool → ℕ → Option (ObjPool × ℕ)) → ObjPool → ℕ → Option ℕ → Option (ObjPool × ℕ)
turn again p i none = none
turn again p i (some cur) = visit again p i cur (cur == 0)

-- `while (vaddr == NULL)`
unfoldable pub search : ℕ → ObjPool → ℕ → Option (ObjPool × ℕ)
search zero p i = none
search (suc n) p i = turn (search n) p i (get_elem? p.bitmap i)

-- A turn of the loop goes to the next word or clears a bit of this one.
abbrev pub search_fuel : ObjPool → ℕ
search_fuel p = length p.bitmap * 33

-- dpa_obj_malloc; the address 0 is its NULL.
unfoldable pub obj_malloc : ObjPool → ℕ → Option (ObjPool × ℕ)
obj_malloc p len =
    if ltb p.obj_size len
    then some (p, 0)
    else if p.obj_free == 0
    then some (p, 0)
    else search (search_fuel p) p 0

-- dpa_obj_free
unfoldable pub obj_free_index : ObjPool → ℕ → ObjPool
obj_free_index p j = if leb p.obj_total j then p else record p {
  bitmap = set p.bitmap (j / 32) (bit_or (get_or p.bitmap (j / 32) 0) (2 ^ (j % 32)));
  obj_free = add32 p.obj_free 1;
}

-- The 64-bit difference of two addresses, and whether it leaves the cluster, as dpa_obj_offset
-- finds.
unfoldable pub rel_ofs : ℕ → ℕ → ℕ
rel_ofs vaddr base = (vaddr + 2 ^ 64 - base) % 2 ^ 64

unfoldable pub is_outside : ObjPool → ℕ → Bool
is_outside p relofs = leb (2 ^ 63) relofs || leb p.clst_size relofs

-- The loop of dpa_obj_offset; it ends for a cluster of at least one object, and `fuel` turns are
-- enough for `fuel` objects.
unfoldable pub offset_from : ℕ → ObjPool → ℕ → ℕ → ℕ → ℕ
offset_from zero p vaddr i ofs = 0
offset_from (suc n) p vaddr i ofs =
    let relofs = rel_ofs vaddr (get_or p.addr_tbl i no_item).vaddr in
    let rest = offset_from n p vaddr (add32 i p.clst_n_entries) (ofs + p.clst_size) in
    if ltb_i32 i p.obj_total then if is_outside p relofs then rest else ofs + relofs else 0

-- dpa_obj_offset
unfoldable pub obj_offset : ObjPool → ℕ → ℕ
obj_offset p vaddr = offset_from p.obj_total p vaddr 0 0

-- The loop of dpa_obj_free_va, with `n` clusters to go. For object 0 the source prints an error
-- and goes on.
unfoldable pub free_va_from : ℕ → ObjPool → ℕ → ℕ → ℕ → ObjPool
free_va_from zero p vaddr i j = p
free_va_from (suc n) p vaddr i j =
    let base = (get_or p.addr_tbl (u32 (i * p.clst_n_entries)) no_item).vaddr in
    let relofs = rel_ofs vaddr base in
    let rest = free_va_from n p vaddr (i + 1) (add32 j p.clst_n_entries) in
    if ltb vaddr base || (ltb relofs (2 ^ 63) && leb p.clst_size relofs)
    then rest
    else obj_free_index p (add32 j (relofs / p.obj_size))

-- dpa_obj_free_va
unfoldable pub obj_free_va : ObjPool → ℕ → ObjPool
obj_free_va p vaddr = free_va_from (p.mem_total / p.clst_size) p vaddr 0 0

-- dpa_buf_index
unfoldable pub buf_index : ObjPool → ℕ → ℕ
buf_index p vaddr = u32 (obj_offset p vaddr / p.obj_size)

-- dpa_free_buf
unfoldable pub free_buf : ObjPool → ℕ → ObjPool
free_buf p i = if ltb i 2 || leb p.obj_total i then p else obj_free_index p i

-- The clean-up of dpa_new_bufs: the slots below i are freed from the last on.
unfoldable pub free_slots : ℕ → ObjPool → List DpaSlot → ObjPool
free_slots zero p slots = p
free_slots (suc i) p slots = free_slots i (obj_free_index p (get_or slots i no_slot).buf_idx) slots

-- What dpa_new_bufs leaves: the pool, the slots, and whether it returns 0 or -ENOMEM.
pub record NewBufs : Type 0 where
  pub pool : ObjPool
  pub slots : List DpaSlot
  pub is_ok : Bool

-- A buffer was had or not.
abbrev stocked :
    (ObjPool × ℕ → Option NewBufs) → (ObjPool → NewBufs) → Option (ObjPool × ℕ) → Option NewBufs
stocked more fail none = none
stocked more fail (some g) = if g.1 == 0 then some (fail g.0) else more g

-- The loop of dpa_new_bufs from slot i on, with m of the n slots to go. dpa_buf_malloc asks for
-- dpa_buf_size bytes.
unfoldable pub new_bufs_from : ℕ → ℕ → ℕ → ObjPool → List DpaSlot → ℕ → Option NewBufs
new_bufs_from buf_size zero n p slots i = some (record { pool = p; slots = slots; is_ok = true })
new_bufs_from buf_size (suc m) n p slots i =
    stocked
      (λ g.
        new_bufs_from buf_size m n g.0
          (set slots i (record {
            buf_idx = buf_index g.0 g.1;
            len = u16 p.obj_size;
            info = (get_or slots i no_slot).info;
          }))
          (i + 1))
      (λ q. record { pool = free_slots i q slots; slots = replicate n no_slot; is_ok = false })
      (obj_malloc p buf_size)

-- dpa_new_bufs on an array of n slots, where dpa_buf_size is `buf_size`
unfoldable pub new_bufs : ℕ → ObjPool → List DpaSlot → ℕ → Option NewBufs
new_bufs buf_size p slots n = new_bufs_from buf_size n n p slots 0
