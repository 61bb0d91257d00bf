-- ===== src/Sbios/SifCmd/State.antt =====
-- TGE/sbios/sifcmd.c: the state of the command interface, and its tables of handlers.
use kernelreloaded.Common.{
  ℕ, ◌+◌, ◌%◌, ◌^◌, Bool, false, Option, none, some, List, ltb, ◌==◌, if◌then◌else◌, length,
  get_elem?, set,
}
use kernelreloaded.Common.Bits.{bit}

abbrev pub u32 : ℕ
u32 = 2 ^ 32

-- An address; 0 is NULL.
abbrev pub Ptr : Type 0
Ptr = ℕ

abbrev pub cmd_packet_data_max : ℕ
cmd_packet_data_max = 112

abbrev pub cmd_handler_max : ℕ
cmd_handler_max = 32

-- `SYSTEM_CMD`, and the commands of the file.
abbrev pub system_cmd : ℕ
system_cmd = 0x8000_0000

abbrev pub cmd_change_saddr : ℕ
cmd_change_saddr = system_cmd + 0

abbrev pub cmd_set_sreg : ℕ
cmd_set_sreg = system_cmd + 1

-- A pointer to a handler: NULL, the two handlers of this file, or one of another file.
pub data Fn : Type 0 where
  null change_addr set_sreg : Fn
  other : Ptr → Fn

-- `sifCmdHandler_t`.
pub record Handler : Type 0 where
  pub handler : Fn
  pub harg : Ptr

-- `cmd_data_t` with `initialized`, the words of the receive buffer and of `sregs`, and the tables
-- of handlers by their addresses.
pub record Cmd : Type 0 where
  pub initialized : Bool
  pub pktbuf_at : Ptr
  pub pktbuf : List ℕ
  pub cmdbuf_at : Ptr
  pub iopbuf : Ptr
  pub sys_handlers : Ptr
  pub nr_sys : ℕ
  pub usr_handlers : Ptr
  pub nr_usr : ℕ
  pub sregs_at : Ptr
  pub sregs : List ℕ
  pub tables : Ptr → List Handler

-- Where the linker puts the file's static data, and `sbios_iopaddr`.
pub record Layout : Type 0 where
  pub pktbuf : Ptr
  pub cmdbuf : Ptr
  pub init_pkt : Ptr
  pub cmd_data : Ptr
  pub sys_buffer : Ptr
  pub sregs : Ptr
  pub iopaddr : Ptr

abbrev pub kseg1addr : Ptr → Ptr
kseg1addr a = a % 2 ^ 29 + 0xa000_0000

-- The entry of a table; `none` is a read outside the array.
abbrev pub handler_at : Cmd → Ptr → ℕ → Option Handler
handler_at c table id = get_elem? (c.tables table) id

-- A write of an entry; `none` is a write outside the array.
abbrev pub put_handler : Ptr → ℕ → Handler → Cmd → Option Cmd
put_handler table id h c =
    if ltb id (length (c.tables table))
    then some
        (record c { tables = λ p. if p == table then set (c.tables table) id h else c.tables p })
    else none

-- `SifAddCmdHandler`. A table that is NULL only prints a message.
unfoldable pub add_handler : ℕ → Fn → Ptr → Cmd → Option Cmd
add_handler fid f harg c =
    let h : Handler = record { handler = f; harg = harg } in
    if bit fid 31
    then (if c.sys_handlers == 0 then some c else put_handler c.sys_handlers (fid % 2 ^ 31) h c)
    else (if c.usr_handlers == 0 then some c else put_handler c.usr_handlers fid h c)

-- The entry of a table loses its handler, and keeps its argument.
abbrev pub drop_handler : Ptr → ℕ → Cmd → Option Cmd
drop_handler table id c = elim (handler_at c table id) [
  | none ↦ none
  | some h ↦ put_handler table id (record h { handler = null }) c
]

-- `sif_cmd_del_handler`.
unfoldable pub del_handler : ℕ → Cmd → Option Cmd
del_handler fid c =
    if bit fid 31
    then (if c.sys_handlers == 0 then some c else drop_handler c.sys_handlers (fid % 2 ^ 31) c)
    else (if c.usr_handlers == 0 then some c else drop_handler c.usr_handlers fid c)

-- `sif_cmd_set_buffer` and `sif_cmd_set_sys_buffer`.
unfoldable pub set_buffer : Ptr → ℕ → Cmd → Ptr × Cmd
set_buffer buf size c = (c.usr_handlers, record c { usr_handlers = buf; nr_usr = size })

unfoldable pub set_sys_buffer : Ptr → ℕ → Cmd → Ptr × Cmd
set_sys_buffer buf size c = (c.sys_handlers, record c { sys_handlers = buf; nr_sys = size })

-- `SifSetSreg` and `SifGetSreg`, which check no bound: `none` is an access outside the array.
unfoldable pub write_sreg : ℕ → ℕ → Cmd → Option Cmd
write_sreg reg val c =
    if c.sregs_at == 0
    then none
    else if ltb reg (length c.sregs)
    then some (record c { sregs = set c.sregs reg val })
    else none

unfoldable pub read_sreg : ℕ → Cmd → Option ℕ
read_sreg reg c = if c.sregs_at == 0 then none else get_elem? c.sregs reg

-- `SifExitCmd`.
unfoldable pub exit_cmd : Cmd → Cmd
exit_cmd c = record c { initialized = false }
