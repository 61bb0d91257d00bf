-- ===== src/Sbios/SifCmd/Dispatch.antt =====
-- TGE/sbios/sifcmd.c: `sif_cmd_interrupt`, and the two handlers of the file.
use kernelreloaded.Common.{
  ℕ, zero, suc, ◌+◌, ◌*◌, ◌/◌, ◌%◌, ◌^◌, Option, none, some, List, [], ◌∷◌, ltb, ◌==◌,
  if◌then◌else◌, get_elem?, set,
}
use kernelreloaded.Common.Bits.{bit}
use kernelreloaded.Sbios.SifDma.State.{Dma, set_dchain}
use kernelreloaded.Sbios.SifCmd.State.{
  Cmd, Ptr, null, change_addr, set_sreg, other, Handler, handler_at, write_sreg,
}

-- The words of a packet, by their places in `tge_sifcmd_header_t`, `ca_pkt_t` and `sr_pkt_t`.
abbrev pub word : List ℕ → ℕ → Option ℕ
word p i = get_elem? p i

-- `pktquads`.
abbrev pub quads_of : ℕ → ℕ
quads_of size = (size + 30) / 16

abbrev pub take_words : ℕ → List ℕ → List ℕ
take_words zero ws = []
take_words (suc n) [] = []
take_words (suc n) (w ∷ ws) = w ∷ take_words n ws

-- Which entry `sif_cmd_interrupt` calls: a command of the system or of the user, with its bound.
unfoldable pub find_handler : ℕ → Cmd → Option (Option Handler)
find_handler fid c =
    let id = fid % 2 ^ 31 in
    let table =
      if bit fid 31
      then (if ltb id c.nr_sys then c.sys_handlers else 0)
      else (if ltb id c.nr_usr then c.usr_handlers else 0) in
    if table == 0
    then some none
    else elim (handler_at c table id) [ none ↦ none | some h ↦ some (some h) ]

-- `change_addr` and `set_sreg`, whose argument is the file's own structure.
unfoldable pub change_addr_handler : List ℕ → Cmd → Option Cmd
change_addr_handler p c = elim (word p 4) [ none ↦ none | some a ↦ some (record c { iopbuf = a }) ]

unfoldable pub set_sreg_handler : List ℕ → Cmd → Option Cmd
unfolding write_sreg
set_sreg_handler p c = elim (word p 4) [
  | none ↦ none
  | some reg ↦ elim (word p 5) [ none ↦ none | some val ↦ write_sreg reg val c ]
]

module _ {S : Type 0} (call : Ptr → List ℕ → Ptr → Cmd × Dma × S → Option (Cmd × Dma × S)) where
  -- The call of a handler of the table with the packet.
  unfoldable pub run_handler : Handler → List ℕ → Cmd × Dma × S → Option (Cmd × Dma × S)
  run_handler h p (c, d, s) = elim h.handler [
    | null ↦ some (c, d, s)
    | change_addr ↦ elim (change_addr_handler p c) [ none ↦ none | some c' ↦ some (c', d, s) ]
    | set_sreg ↦ elim (set_sreg_handler p c) [ none ↦ none | some c' ↦ some (c', d, s) ]
    | other f ↦ call f p h.harg (c, d, s)
  ]

  -- The part behind the check of the size: the packet is copied, the channel restarted, the handler
  -- called. The size in the header is cleared before the copy is made. The stack has room for eight
  -- quadwords: `none` beyond.
  unfoldable pub receive : ℕ → Cmd × Dma × S → Option (Cmd × Dma × S)
  unfolding find_handler run_handler
  receive size (c, d, s) =
      if ltb 8 (quads_of size)
      then none
      else (let buffer = set c.pktbuf 0 0 in
          let packet = take_words (4 * quads_of size) buffer in
          let c' = record c { pktbuf = buffer } in
          elim (word packet 2) [
            | none ↦ none
            | some fid ↦ elim (find_handler fid c') [
              | none ↦ none
              | some none ↦ some (c', set_dchain d, s)
              | some (some h) ↦ run_handler h packet (c', set_dchain d, s)
            ]
          ])

  -- `sif_cmd_interrupt`.
  unfoldable pub cmd_interrupt : Cmd × Dma × S → Option (Cmd × Dma × S)
  unfolding receive
  cmd_interrupt (c, d, s) =
      if bit d.sif0_chcr 8
      then some (c, d, s)
      else if c.pktbuf_at == 0
      then none
      else elim (word c.pktbuf 0) [
        | none ↦ none
        | some size_word ↦
            let size = size_word % 256 in
            let go = receive size (c, d, s) in if size == 0 then some (c, d, s) else go
      ]
