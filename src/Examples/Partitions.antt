-- ===== src/Examples/Partitions.antt =====
-- A disk image with partition `c` at sector 64, 100 sectors long, and AdvFS's magic number in it.
use advfs_fuse.Base.{
  ◌+◌, ◌-◌, ◌*◌, ◌<◌, ◌≤◌, ◌≡◌, refl, inl, inr, List, [], ◌∷◌, All, none, ok, true, Bool-cases,
  ◌==◌, arith,
}
use advfs_fuse.Volume.{got, OpenFile, Volume, open_at}
use advfs_fuse.Volume.Disklabel.{Disk, Partition, read_disklabel}
use advfs_fuse.Volume.Disklabel.Bounds.{AreBytes, Sized, label_bytes, open_at_in_partition}
use advfs_fuse.Examples.Pokes.{Poke, poked, poke}

poked-AreBytes : (ps : List Poke) → All (λ p. p.byte < 256) ps → AreBytes (poked ps)
poked-AreBytes [] all i = omega arith
poked-AreBytes (p ∷ ps) all i = elim (Bool-cases (i == p.pos)) [
  | inl e ↦ rw e all.0
  | inr e ↦ rw e (poked-AreBytes ps all.1 i)
]

abbrev pokes : List Poke
pokes =
    poke 64 87
    ∷ poke 65 69
    ∷ poke 66 86
    ∷ poke 67 130
    ∷ poke 196 87
    ∷ poke 197 69
    ∷ poke 198 86
    ∷ poke 199 130
    ∷ poke 202 8
    ∷ poke 244 100
    ∷ poke 248 64
    ∷ poke 42332 83
    ∷ poke 42333 25
    ∷ poke 42334 8
    ∷ poke 42335 17
    ∷ []

abbrev disk : Disk
disk = record { content = poked pokes; open_error = none; label_read = got 404 }

abbrev file : OpenFile
file = record {
  content = poked pokes;
  answers = λ len abs. got len ∷ [];
  file_size = 200000;
  is_file_or_device = true;
  magic_read = got 4;
}

abbrev partition : Partition
partition = record { offset = 32768; size = 51200 }

found : read_disklabel disk 99 ≡ ok partition
unfolding read_disklabel
found = refl

opened : (vol : Volume) × (open_at file 32768 51200 ≡ ok vol)
unfolding open_at
opened = (_, refl)

are_bytes : AreBytes disk.content
are_bytes = poked-AreBytes pokes (
  omega arith,
  (
    omega arith,
    (
      omega arith,
      (
        omega arith,
        (
          omega arith,
          (
            omega arith,
            (
              omega arith,
              (
                omega arith,
                (
                  omega arith,
                  (
                    omega arith,
                    (omega arith, (omega arith, (omega arith, (omega arith, (omega arith, tt))))),
                  ),
                ),
              ),
            ),
          ),
        ),
      ),
    ),
  ),
)

open_at_in_partition_example :
    Sized partition (label_bytes disk) (148 + (99 - 97) * 16)
    × (opened.0.part_offset ≡ 32768)
    × (opened.0.size_bytes ≤ 51200)
    × (opened.0.part_offset + opened.0.size_bytes ≤ 200000)
open_at_in_partition_example =
    open_at_in_partition disk 99 partition file opened.0 are_bytes found opened.1
