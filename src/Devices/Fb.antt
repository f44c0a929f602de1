-- ===== src/Devices/Fb.antt =====
-- devices/fb.c: the text screen, as bytes from `fb` on: a character and its attribute for each cell.
pub mod Laws
pub mod Frame
use qemu_usage_test.Base.{
  ℕ, zero, suc, ◌+◌, ◌-◌, ◌*◌, ◌/◌, ◌%◌, ◌^◌, Bool, true, false, List, [], ◌∷◌, ◌++◌, ltb, leb,
  ◌==◌, if◌then◌else◌, bit_and, bit_or, add32, sub32, u16, shl32,
}
use qemu_usage_test.Round.{round_up}
use qemu_usage_test.Vaddr.{ptov}
use qemu_usage_test.Memory.{Memory, poke}
use qemu_usage_test.Str.{memmove}
use qemu_usage_test.Devices.{PortWrite, outb, outw}

abbrev pub col_cnt : ℕ
col_cnt = 80

abbrev pub row_cnt : ℕ
row_cnt = 25

abbrev pub gray_on_black : ℕ
gray_on_black = 0x07

-- The static variables, the memory and the port writes made so far.
pub record Screen : Type 0 where
  pub cx : ℕ
  pub cy : ℕ
  pub fb : ℕ
  pub inited : Bool
  pub mem : Memory
  pub writes : List PortWrite

-- `&fb[y][x]`
abbrev pub cell : ℕ → ℕ → ℕ → ℕ
cell fb y x = fb + 160 * y + 2 * x

-- A character with the default attribute in the cell at `p`.
abbrev pub put_cell : ℕ → ℕ → Memory → Memory
put_cell p ch mem = poke (poke mem p ch) (p + 1) gray_on_black

-- The loop over the `n` cells from `p` on.
unfoldable pub clear_cells : ℕ → ℕ → Memory → Memory
clear_cells zero p mem = mem
clear_cells (suc n) p mem = clear_cells n (p + 2) (put_cell p 0x20 mem)

pub clear_row : ℕ → ℕ → Memory → Memory
unfolding clear_cells
clear_row fb y mem = clear_cells col_cnt (cell fb y 0) mem

-- The loop over the `n` rows from `y` on.
pub clear_rows : ℕ → ℕ → ℕ → Memory → Memory
unfolding clear_row
clear_rows fb y zero mem = mem
clear_rows fb y (suc n) mem = clear_rows fb (y + 1) n (clear_row fb y mem)

pub move_cursor : Screen → Screen
move_cursor s =
    let cp = u16 (s.cx + col_cnt * s.cy) in
    record s {
      writes =
          s.writes
          ++ outw 0x3d4 (u16 (bit_or 0x0e (bit_and cp 0xff00)))
            ∷ outw 0x3d4 (u16 (bit_or 0x0f (shl32 cp 8)))
            ∷ [];
    }

pub cls : Screen → Screen
unfolding clear_rows move_cursor
cls s = move_cursor (record s { mem = clear_rows s.fb 0 row_cnt s.mem; cx = 0; cy = 0 })

unfoldable pub newline : Screen → Screen
unfolding clear_row
newline s =
    let cy = add32 s.cy 1 in
    if leb row_cnt cy
    then record s {
      cx = 0;
      cy = row_cnt - 1;
      mem =
          clear_row s.fb (row_cnt - 1)
            (memmove (cell s.fb 0 0) (cell s.fb 1 0) (160 * (row_cnt - 1)) s.mem).1;
    }
    else record s { cx = 0; cy = cy }

-- `high` and `low` are what the port 0x3d5 answers.
unfoldable pub find_cursor : ℕ → ℕ → Screen → Screen
find_cursor high low s =
    let cp = bit_or (u16 (shl32 high 8)) low in
    record s {
      cx = cp % col_cnt;
      cy = cp / col_cnt;
      writes = s.writes ++ outb 0x3d4 0x0e ∷ outb 0x3d4 0x0f ∷ [];
    }

unfoldable pub init_cursor : ℕ → ℕ → Screen → Screen
unfolding find_cursor move_cursor
init_cursor high low s =
    if s.inited
    then s
    else (let s = find_cursor high low (record s { fb = ptov 0xb8000 }) in
        record (move_cursor (record s { cy = add32 s.cy 3; cx = 0 })) { inited = true })

-- The switch on the character.
pub put_char : ℕ → Screen → Screen
unfolding newline cls
put_char ch s =
    if ch == 0x0d
    then record s { cx = 0 }
    else if ch == 0x0a
    then newline s
    else if ch == 0x0c
    then cls s
    else if ch == 0x08
    then (if ltb 0 s.cx then record s { cx = sub32 s.cx 1 } else s)
    else if ch == 0x09
    then (let s = record s { cx = round_up (add32 s.cx 1) 8 } in
        if leb col_cnt s.cx then newline s else s)
    else (let s = record s { mem = put_cell (cell s.fb s.cy s.cx) ch s.mem; cx = add32 s.cx 1 } in
        if leb col_cnt s.cx then newline s else s)

unfoldable pub fb_putc : ℕ → ℕ → ℕ → Screen → Screen
unfolding init_cursor put_char move_cursor
fb_putc high low ch s = move_cursor (put_char ch (init_cursor high low s))
