-- ===== src/Devices/Pic.antt =====
-- devices/pic.c: the two interrupt controllers.
pub mod Laws
use qemu_usage_test.Base.{ℕ, ◌&&◌, List, [], ◌∷◌, ◌++◌, leb, if◌then◌else◌}
use qemu_usage_test.Devices.{PortWrite, outb}

abbrev pub pic_master_ctrl : ℕ
pic_master_ctrl = 0x20

abbrev pub pic_master_data : ℕ
pic_master_data = 0x21

abbrev pub pic_slave_ctrl : ℕ
pic_slave_ctrl = 0xa0

abbrev pub pic_slave_data : ℕ
pic_slave_data = 0xa1

unfoldable pub pic_init : List PortWrite
pic_init =
    outb pic_master_data 0xff
    ∷ outb pic_slave_data 0xff
    ∷ outb pic_master_ctrl 0x11
    ∷ outb pic_master_data 0x20
    ∷ outb pic_master_data 0x04
    ∷ outb pic_master_data 0x01
    ∷ outb pic_slave_ctrl 0x11
    ∷ outb pic_slave_data 0x28
    ∷ outb pic_slave_data 0x02
    ∷ outb pic_slave_data 0x01
    ∷ outb pic_master_data 0
    ∷ outb pic_slave_data 0
    ∷ []

unfoldable pub pic_end_of_interrupt : ℕ → List PortWrite
pic_end_of_interrupt vec_no =
    outb pic_master_ctrl 0x20
    ∷ (if leb 0x28 vec_no && leb vec_no 0x2f then outb pic_slave_ctrl 0x20 ∷ [] else [])
