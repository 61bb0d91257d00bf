-- ===== src/Sbios/SifDma/Ring.antt =====
-- The ring of 31 tags: advancing the index, and the number of free tags.
use kernelreloaded.Common.{
  ℕ, zero, suc, ◌+◌, ◌-◌, ◌/◌, ◌%◌, ◌^◌, ◌<◌, ◌≡◌, ◌∙◌, ◌&&◌, arith, ◌==◌, if◌then◌else◌,
}
use kernelreloaded.Sbios.SifDma.Place.{next_tag}
use kernelreloaded.Sbios.SifDma.Send.{free_between, transfer_id}

-- `SET_NEXT_DMATAG`, n times.
abbrev pub advance : ℕ → ℕ × ℕ → ℕ × ℕ
advance zero p = p
advance (suc n) p = advance n (next_tag p)

pub next_tag_lem :
    (i c : ℕ) → i < 31 → c < 2 ^ 16 → next_tag (i, c) ≡ ((i + 1) % 31, (c + (i + 1) / 31) % 2 ^ 16)
unfolding next_tag
next_tag_lem i c hi hc = ground arith

-- After n steps the index has gone n places round the ring, and the count has grown by the rounds.
pub advance_lem :
    (n i c : ℕ)
    → i < 31
    → c < 2 ^ 16
    → advance n (i, c) ≡ ((i + n) % 31, (c + (i + n) / 31) % 2 ^ 16)
advance_lem zero i c hi hc = ground arith
advance_lem (suc n) i c hi hc = rw (next_tag_lem i c hi hc) (
    advance_lem n ((i + 1) % 31) ((c + (i + 1) / 31) % 2 ^ 16) (omega arith) (omega arith)
    ∙ ground arith)

-- The steps from one index of the ring to another.
abbrev pub steps : ℕ → ℕ → ℕ
steps p i = (i + 31 - p) % 31

-- In the ring, all tags but those in front of the hardware and one more are free; the ring counts
-- as empty where the two indices meet and the quadword counter is zero.
pub free_between_lem :
    (hw sw qwc : ℕ)
    → hw < 31
    → sw < 31
    → free_between hw sw qwc ≡ (if steps hw sw == 0 && (qwc == 0) then 31 else 30 - steps hw sw)
unfolding free_between
free_between_lem hw sw qwc hh hs = ground arith

pub steps-add :
    (p i n : ℕ) → p < 31 → i < 31 → steps p i + n < 31 → steps p ((i + n) % 31) ≡ steps p i + n
steps-add p i n hp hi h = omega arith

pub transfer_id_fields :
    (i c n : ℕ)
    → i < 31
    → c < 2 ^ 16
    → n < 256
    → (transfer_id i c n % 2 ^ 8 ≡ n)
      × (transfer_id i c n / 2 ^ 8 % 2 ^ 8 ≡ (next_tag (i, c)).0)
      × (transfer_id i c n / 2 ^ 16 ≡ (next_tag (i, c)).1)
unfolding transfer_id next_tag
transfer_id_fields i c n hi hc hn = ground arith
