-- ===== src/Devices/Block.antt =====
-- devices/block.c: the list of block devices. The node of a device is at its start, its name 8 bytes on.
pub mod Laws
mod Tests
use qemu_usage_test.Base.{
  ℕ, zero, suc, ◌+◌, ◌^◌, ◌<◌, ◌≡◌, ◌≢◌, refl, sym, ap, ◌∙◌, Bool, true, false, ◌||◌, not, List, [],
  ◌∷◌, Outcome, done, hang, ◌>>=◌, Option, none, some, All, length, ltb, ◌==◌, if◌then◌else◌, ne→==,
  eq→==, arith,
}
use qemu_usage_test.Base.Int.{ℤ, pos, negsuc}
use qemu_usage_test.Memory.{Memory, null}
use qemu_usage_test.Str.{strcmp, strlcpy}
use qemu_usage_test.Links.{Links, list_head_init, list_add_tail, list_del}
use qemu_usage_test.Links.Shape.{IsList, Linked, Absent}

-- `struct block` without its node and its name; `ops` and `params` are addresses.
pub record Block : Type 0 where
  pub nr_sectors : ℕ
  pub ops : ℕ
  pub params : ℕ

-- `block_devices` is the address of the list head.
pub record BlockDevices : Type 0 where
  pub links : Links
  pub blocks : ℕ → Block
  pub mem : Memory
  pub block_devices : ℕ

-- `blk->name`
abbrev pub block_name : ℕ → ℕ
block_name blk = blk + 8

unfoldable pub valid_sector_no : Block → ℕ → Bool
valid_sector_no blk sector = ltb sector blk.nr_sectors

unfoldable pub block_init : BlockDevices → BlockDevices
block_init d = record d { links = list_head_init d.block_devices d.links }

-- `(size_t)-1`
abbrev pub block_err : ℕ
block_err = 4294967295

-- `operation` is what `ops->read` or `ops->write` does for the operations at an address, at a buffer,
-- a sector and params, to the state of the driver.
module _ {ℓ} {S : Type ℓ} (operation : ℕ → ℕ → ℕ → ℕ → S → Outcome (ℕ × S)) where
  unfoldable pub block_read : Block → ℕ → ℕ → S → Outcome (ℕ × S)
  unfolding valid_sector_no
  block_read blk buf sector s =
      if not (valid_sector_no blk sector)
      then done (block_err, s)
      else operation blk.ops buf sector blk.params s

  unfoldable pub block_write : Block → ℕ → ℕ → S → Outcome (ℕ × S)
  unfolding valid_sector_no
  block_write blk buf sector s =
      if not (valid_sector_no blk sector)
      then done (block_err, s)
      else operation blk.ops buf sector blk.params s

unfoldable pub block_register : ℕ → ℕ → ℕ → ℕ → ℕ → BlockDevices → Outcome (ℕ × BlockDevices)
block_register blk name nr_sectors ops params d =
    if blk == null || name == null then done (null, d) else (do
      r ← strlcpy (block_name blk) name 16 d.mem
      done (
        blk,
        record d {
          mem = r.1;
          blocks = λ b.
              if b == blk
              then record { nr_sectors = nr_sectors; ops = ops; params = params }
              else d.blocks b;
          links = list_add_tail blk d.block_devices d.links;
        },
      ))

unfoldable pub block_unregister : ℕ → BlockDevices → BlockDevices
block_unregister blk d = if blk == null then d else record d { links = list_del blk d.links }

abbrev pub is_zero : ℤ → Bool
is_zero (pos n) = n == 0
is_zero (negsuc n) = false

-- The loop over the list from `blk` on, with the rounds that are left.
unfoldable pub search_name : ℕ → ℕ → ℕ → BlockDevices → Outcome ℕ
search_name zero name blk d = hang
search_name (suc rounds) name blk d =
    let rest = search_name rounds name (d.links.next blk) d in
    if blk == d.block_devices
    then done null
    else (do order ← strcmp name (block_name blk) d.mem; if is_zero order then done blk else rest)

unfoldable pub blcok_get_by_name : ℕ → BlockDevices → Outcome ℕ
blcok_get_by_name name d = search_name (2 ^ 32) name (d.links.next d.block_devices) d
