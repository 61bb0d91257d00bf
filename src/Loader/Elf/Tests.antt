-- ===== src/Loader/Elf/Tests.antt =====
-- An image of two sections, of which the second one has more bytes in memory than in the file.
use kernelreloaded.Common.{
  sym, subst, inr, ◌⊎◌, some, ◌≤◌, ◌<◌, ap, ◌≡◌, refl, inl, true, [], ◌∷◌, arith, ◌==◌,
  if◌then◌else◌, pos, negsuc,
}
use mathlib.Core.List.{Memᴰ}
use kernelreloaded.Loader.Elf.{
  is_load, section_size, Phdr, Elf, Memory, check_sections, copy_sections, verify_sections,
}
use kernelreloaded.Loader.Elf.Checks.{SmallMemory}
use kernelreloaded.Loader.Elf.Inside.{Covered, copy_sections-check_sections}
use kernelreloaded.Loader.Elf.Loaded.{Separate, content, copy_sections-content}
use kernelreloaded.Loader.Elf.Verified.{verify_sections-copy_sections}

abbrev code : Phdr
code = record { kind = 1; offset = 0x54; paddr = 0x80010000; filesz = 4; memsz = 4 }

abbrev variables : Phdr
variables = record { kind = 1; offset = 0x58; paddr = 0x80010010; filesz = 2; memsz = 5 }

abbrev image : Elf
image = record {
  magic = 0x464c457f;
  entry = 0x80010000;
  phdrs = code ∷ variables ∷ [];
  buffer = λ i. i;
}

abbrev dirty : Memory
dirty x = 7

small : SmallMemory image.phdrs
small = (omega arith, (omega arith, tt))

image_accepted : check_sections 100 0x10000 0x20000 image ≡ (pos 0, 0x10015)
unfolding check_sections
image_accepted = refl

-- A file that ends exactly with its last section is refused.
exact_refused : (check_sections 90 0x10000 0x20000 image).0 ≡ negsuc 29
unfolding check_sections
exact_refused = refl

zeroed : (copy_sections image dirty).1 0x10014 ≡ 0
unfolding copy_sections
zeroed = refl

-- Only the first of the zeroes is compared.
second_zero_missed :
    verify_sections image (λ x. if x == 0x10013 then 1 else (copy_sections image dirty).1 x) ≡ true
unfolding verify_sections copy_sections
second_zero_missed = refl

separate : Separate image.phdrs
unfolding section_size
separate = ((λ l. ((λ k. inl (omega arith)), tt)), ((λ l. tt), tt))

copy_sections-check_sections_example :
    ((check_sections 100 0x10000 0x20000 image).1 < 0x20000)
    × Covered 0x10000 image.phdrs
    × ((copy_sections image dirty).0 ≡ some 0x80010000)
    × ((copy_sections image dirty).1 0x10020 ≡ dirty 0x10020)
copy_sections-check_sections_example =
    copy_sections-check_sections 100 0x10000 0x20000 image dirty 0x10020 small
      (ap (λ r. r.0) image_accepted)
      (inr (subst (λ r. r.1 ≤ 0x10020) (sym image_accepted) (omega arith)))

copy_sections-content_example :
    ((copy_sections image dirty).1 0x10013 ≡ content image.buffer variables 3)
    × ((2 ≤ 3) ⊎ (0x5b < 100))
unfolding is_load section_size
copy_sections-content_example =
    copy_sections-content 100 0x10000 0x20000 image dirty variables 3 small
      (ap (λ r. r.0) image_accepted) separate (Memᴰ.tail (Memᴰ.head refl)) refl (omega arith)

verify_sections-copy_sections_example : verify_sections image (copy_sections image dirty).1 ≡ true
verify_sections-copy_sections_example =
    verify_sections-copy_sections 100 0x10000 0x20000 image dirty small
      (ap (λ r. r.0) image_accepted) separate (omega arith, (omega arith, tt))
