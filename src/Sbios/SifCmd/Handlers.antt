-- ===== src/Sbios/SifCmd/Handlers.antt =====
-- TGE/sbios/sifcmd.c: that a registered handler is the one that a packet reaches.
use kernelreloaded.Common.{
  subst, none, true, ltb→lt, inr, ltb, inl, get_elem?-set_self, Bool-cases, ==_refl, ◌≢◌, ◌==◌,
  some, length, ℕ, ◌%◌, ◌^◌, ◌<◌, ◌≡◌, false, arith, if◌then◌else◌, set,
}
use mathlib.Core.Option.{some-injective}
use kernelreloaded.Common.Bits.{bit}
use kernelreloaded.Sbios.SifCmd.State.{
  Cmd, Ptr, Fn, Handler, handler_at, put_handler, add_handler, u32,
}
use kernelreloaded.Sbios.SifCmd.Dispatch.{find_handler}

low_of_bit : (x : ℕ) → x < 2 ^ 32 → bit x 31 ≡ false → x % 2 ^ 31 ≡ x
unfolding bit
low_of_bit x h b = ground arith

-- The table and the bound that belong to a command.
abbrev pub table_for : ℕ → Cmd → Ptr
table_for fid c = if bit fid 31 then c.sys_handlers else c.usr_handlers

abbrev pub limit_for : ℕ → Cmd → ℕ
limit_for fid c = if bit fid 31 then c.nr_sys else c.nr_usr

abbrev written : Ptr → ℕ → Handler → Cmd → Cmd
written table id h c = record c {
  tables = λ p. if p == table then set (c.tables table) id h else c.tables p;
}

put_handler_inv :
    (table id : ℕ) (h : Handler) (c c' : Cmd)
    → put_handler table id h c ≡ some c'
    → (id < length (c.tables table)) × (written table id h c ≡ c')
put_handler_inv table id h c c' e = elim (Bool-cases (ltb id (length (c.tables table)))) [
  | inl l ↦
      (ltb→lt id (length (c.tables table)) l, some-injective (written table id h c) c' (rw l at e))
  | inr g ↦ (let e' : none ≡ some c' = rw g at e in cc)
]

written-handler_at :
    (table id : ℕ) (h : Handler) (c : Cmd)
    → id < length (c.tables table)
    → handler_at (written table id h c) table id ≡ some h
written-handler_at table id h c l = rw (==_refl table) (get_elem?-set_self (c.tables table) id h l)

-- `SifAddCmdHandler` and the interrupt choose the same entry.
add_handler_inv :
    (fid : ℕ) (f : Fn) (harg : Ptr) (c c' : Cmd)
    → fid < u32
    → table_for fid c ≢ 0
    → add_handler fid f harg c ≡ some c'
    → put_handler (table_for fid c) (fid % 2 ^ 31) (record { handler = f; harg = harg }) c ≡ some c'
unfolding add_handler
add_handler_inv fid f harg c c' small ne e = elim (Bool-cases (bit fid 31)) [
  | inl b ↦ let ne' : (c.sys_handlers == 0) ≡ false = ground arith in rw b (rw (b, ne') at e)
  | inr b ↦
      let ne' : (c.usr_handlers == 0) ≡ false = ground arith in
      rw (b, low_of_bit fid small b) (rw (b, ne') at e)
]

find_handler_lem :
    (fid : ℕ) (c : Cmd) (h : Handler)
    → table_for fid c ≢ 0
    → fid % 2 ^ 31 < limit_for fid c
    → handler_at c (table_for fid c) (fid % 2 ^ 31) ≡ some h
    → find_handler fid c ≡ some (some h)
unfolding find_handler
find_handler_lem fid c h ne l e = elim (Bool-cases (bit fid 31)) [
  | inl b ↦
      let ne' : (c.sys_handlers == 0) ≡ false = ground arith in
      let l' : ltb (fid % 2 ^ 31) c.nr_sys ≡ true = ground arith in
      let e' : handler_at c c.sys_handlers (fid % 2 ^ 31) ≡ some h = rw b at e in
      rw (b, l', ne', e')
  | inr b ↦
      let ne' : (c.usr_handlers == 0) ≡ false = ground arith in
      let l' : ltb (fid % 2 ^ 31) c.nr_usr ≡ true = ground arith in
      let e' : handler_at c c.usr_handlers (fid % 2 ^ 31) ≡ some h = rw b at e in
      rw (b, l', ne', e')
]

-- Registered and then called: what `SifAddCmdHandler` put into its table is what the interrupt finds
-- for that command, where the table is set and the command's number lies below its bound.
pub find_handler-add_handler :
    (fid : ℕ) (f : Fn) (harg : Ptr) (c c' : Cmd)
    → fid < u32
    → table_for fid c ≢ 0
    → fid % 2 ^ 31 < limit_for fid c
    → add_handler fid f harg c ≡ some c'
    → find_handler fid c' ≡ some (some (record { handler = f; harg = harg }))
find_handler-add_handler fid f harg c c' small ne l e =
    let h : Handler = record { handler = f; harg = harg } in
    let (room, e') =
      put_handler_inv (table_for fid c) (fid % 2 ^ 31) h c c'
        (add_handler_inv fid f harg c c' small ne e) in
    subst (λ x. find_handler fid x ≡ some (some h)) e'
      (find_handler_lem fid (written (table_for fid c) (fid % 2 ^ 31) h c) h ne l
        (written-handler_at (table_for fid c) (fid % 2 ^ 31) h c room))
