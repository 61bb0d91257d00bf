-- ===== src/Sbios/SifDma/Registers.antt =====
-- `SifSetReg`, `SifGetReg` and the flag registers, and the initialisation.
use kernelreloaded.Common.Bits.{bit, clear_bit}
use kernelreloaded.Common.{
  get_elem?-set_ne, ==_ne, sym, inr, eq_of_==, Option, inl, ap, ◌∙◌, refl, ltb, get_elem?-set_self,
  Bool-cases, ℕ, ◌*◌, ◌^◌, ◌<◌, ◌≡◌, ◌≢◌, true, false, some, List, [], ◌∷◌, arith, ◌==◌,
  if◌then◌else◌, length, get_elem?, set, replicate,
}
use kernelreloaded.Sbios.SifDma.State.{Dma, Memory, num_sifregs, sif_init, tag_id, next, u32}
use kernelreloaded.Sbios.SifDma.Access.{is_system, set_reg, get_reg, stable_read}
use kernelreloaded.Sbios.SifDma.Send.{hw_index}
use kernelreloaded.Sbios.SifDma.SetDma.{InRing}

apart : (r k : ℕ) → bit r 31 ≡ true → bit k 31 ≡ false → (r == k) ≡ false
apart r k h n = elim (Bool-cases (r == k)) [
  | inl e ↦ absurd (ground (arith, ap (λ x. bit x 31) (eq_of_== r k e)))
  | inr e ↦ e
]

module _ (r : ℕ) (h : is_system r ≡ true) where
  not_one : (r == 1) ≡ false
  unfolding bit
  not_one = apart r 1 h refl

  not_two : (r == 2) ≡ false
  unfolding bit
  not_two = apart r 2 h refl

  not_three : (r == 3) ≡ false
  unfolding bit
  not_three = apart r 3 h refl

  not_four : (r == 4) ≡ false
  unfolding bit
  not_four = apart r 4 h refl

  small-ltb : clear_bit r 31 < num_sifregs → ltb (clear_bit r 31) num_sifregs ≡ true
  small-ltb s = ground arith

  set_system :
      (val : ℕ) (d : Dma)
      → clear_bit r 31 < num_sifregs
      → set_reg r val [] d ≡ some (0, record d { reg_table = set d.reg_table (clear_bit r 31) val })
  unfolding set_reg
  set_system val d s = rw (not_one, not_three, not_four, h, small-ltb s)

  get_system :
      (d : Dma)
      → clear_bit r 31 < num_sifregs
      → get_reg r [] d ≡ get_elem? d.reg_table (clear_bit r 31)
  unfolding get_reg
  get_system d s = rw (not_one, not_two, not_three, not_four, h, small-ltb s)

read_back :
    (xs : List ℕ) (i j v : ℕ)
    → i < length xs
    → get_elem? (set xs i v) j ≡ (if j == i then some v else get_elem? xs j)
read_back xs i j v h = elim (Bool-cases (j == i)) [
  | inl e ↦ rw e (let ji = eq_of_== j i e in rw ji (get_elem?-set_self xs i v h))
  | inr n ↦ rw n (get_elem?-set_ne xs i j v (λ e. ==_ne j i n (sym e)))
]

-- What `SifSetReg` writes into a software register, `SifGetReg` of that register returns; the
-- other software registers read as before.
pub get_reg-set_reg :
    (r q val : ℕ) (d : Dma)
    → length d.reg_table ≡ num_sifregs
    → clear_bit r 31 < num_sifregs
    → clear_bit q 31 < num_sifregs
    → is_system r ≡ true
    → is_system q ≡ true
    → (d' : Dma) × (set_reg r val [] d ≡ some (0, d'))
      × (get_reg q [] d' ≡ (if clear_bit q 31 == clear_bit r 31 then some val else get_reg q [] d))
get_reg-set_reg r q val d size hr hq sr sq = (
  record d { reg_table = set d.reg_table (clear_bit r 31) val },
  set_system r sr val d hr,
  get_system q sq _ hq
      ∙ read_back d.reg_table (clear_bit r 31) (clear_bit q 31) val (omega arith)
      ∙ ap (λ (o : Option ℕ). if clear_bit q 31 == clear_bit r 31 then some val else o)
          (sym (get_system q sq d hq)),
)

-- The first two successive reads that agree show v.
pub data Agreed (v : ℕ) : List ℕ → Type 0 where
  now : {rs : List ℕ} → Agreed v (v ∷ v ∷ rs)
  later : {rs : List ℕ} (a b : ℕ) → a ≢ b → Agreed v rs → Agreed v (a ∷ b ∷ rs)

-- A flag's value is taken only from two successive reads that agree, the first such pair.
pub stable_read-Agreed : (v : ℕ) (rs : List ℕ) → stable_read rs ≡ some v → Agreed v rs
unfolding stable_read
stable_read-Agreed v [] e = ground arith
stable_read-Agreed v (a ∷ []) e = ground arith
stable_read-Agreed v (a ∷ b ∷ rs) e = elim (Bool-cases (a == b)) [
  | inl same ↦
      let ab = eq_of_== a b same in
      let av : some a ≡ some v = rw same at e in let va : a ≡ v = cc in rw (← ab, va) now
  | inr differ ↦ later a b (==_ne a b differ) (stable_read-Agreed v rs (rw differ at e))
]

-- `sbcall_sifinit` clears the software registers, sets the ring to its last place, with the link
-- behind it, and starts the channel from the IOP; a second call changes nothing.
pub sif_init_lem :
    (m : Memory) (d : Dma)
    → d.initialized ≡ false
    → length d.ee_tags ≡ 32
    → m.tags_at < u32
    → let e = sif_init m d in
      InRing e
      × (e.dmatag_index ≡ 30)
      × (hw_index m e ≡ 30)
      × (get_elem? e.ee_tags 31 ≡ some (record { id_qwc = tag_id next * 2 ^ 28; addr = m.tags_at }))
      × (e.reg_table ≡ replicate num_sifregs 0)
      × (e.sif0_chcr ≡ 0x184)
      × (sif_init m e ≡ e)
unfolding sif_init hw_index
sif_init_lem m d fresh size near = rw fresh (
  record { index = omega arith; count = omega arith },
  refl,
  ground arith,
  get_elem?-set_self d.ee_tags 31 _ (omega arith),
  refl,
  refl,
  refl,
)
