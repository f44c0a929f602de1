-- ===== src/Devices/Block/Tests.antt =====
-- The search for "hdb" among the devices "hda" at 100 and "hdb" at 200.
use qemu_usage_test.Base.{ℕ, ◌-◌, ◌≡◌, List, [], ◌∷◌, done, get_or, ltb, ◌==◌, if◌then◌else◌, arith}
use qemu_usage_test.Base.Int.{pos}
use qemu_usage_test.Memory.{Memory, IsString}
use qemu_usage_test.Str.{strcmp}
use qemu_usage_test.Str.Compare.{strcmp-mismatch, strcmp-prefix}
use qemu_usage_test.Links.{Links}
use qemu_usage_test.Links.Shape.{IsList}
use qemu_usage_test.Devices.Block.{BlockDevices, blcok_get_by_name}
use qemu_usage_test.Devices.Block.Laws.{blcok_get_by_name-first}

abbrev hda : List ℕ
hda = b'h' ∷ b'd' ∷ b'a' ∷ []

abbrev hdb : List ℕ
hdb = b'h' ∷ b'd' ∷ b'b' ∷ []

abbrev names : Memory
names a =
    if ltb a 100
    then get_or (0 ∷ hdb) a 0
    else if ltb a 200
    then get_or hda (a - 108) 0
    else get_or hdb (a - 208) 0

abbrev links : Links
links = record {
  next = λ a. if a == 10 then 100 else if a == 100 then 200 else if a == 200 then 10 else a;
  prev = λ a. if a == 10 then 200 else if a == 100 then 10 else if a == 200 then 100 else a;
}

abbrev devices : BlockDevices
devices = record {
  links = links;
  blocks = λ b. record { nr_sectors = 8; ops = 1; params = 2 };
  mem = names;
  block_devices = 10;
}

devices-IsList : IsList links 10 (100 ∷ 200 ∷ [])
devices-IsList = record { linked = omega arith; distinct = omega arith }

wanted-IsString : IsString names 1 hdb
wanted-IsString = omega arith

hda-IsString : IsString names 108 hda
hda-IsString = omega arith

hdb-IsString : IsString names 208 hdb
hdb-IsString = omega arith

to_hda : strcmp 1 108 names ≡ done (pos 0)
to_hda =
    strcmp-mismatch names 1 108 (b'h' ∷ b'd' ∷ []) [] [] b'b' b'a' wanted-IsString hda-IsString
      (omega arith) (omega arith)

to_hdb : strcmp 1 208 names ≡ done (pos 0)
to_hdb = strcmp-prefix names 1 208 hdb [] wanted-IsString hdb-IsString (omega arith)

blcok_get_by_name-first_example : blcok_get_by_name 1 devices ≡ done 100
blcok_get_by_name-first_example =
    blcok_get_by_name-first 1 devices (λ x. pos 0) (100 ∷ 200 ∷ []) devices-IsList
      (to_hda, (to_hdb, tt)) (omega arith)
