-- ===== src/Tool/Modes.antt =====
-- src/advfs_tool.c: what the mode of a file is shown as.
use advfs_fuse.Base.{ℕ, Bool, ◌/◌, ◌%◌, List, [], ◌∷◌, ◌==◌, if◌then◌else◌}
use advfs_fuse.Tool.{mode_type}

-- What a file is, by its type bits.
pub data FileType : Type 0 where
  fifo chardev directory blockdev regular symlink socket unknown : FileType

-- mode_type_str
unfoldable pub mode_type_str : ℕ → FileType
unfolding mode_type
mode_type_str mode =
    let t = mode_type mode in
    if t == 4
    then directory
    else if t == 8
    then regular
    else if t == 10
    then symlink
    else if t == 2
    then chardev
    else if t == 6
    then blockdev
    else if t == 1
    then fifo
    else if t == 12
    then socket
    else unknown

-- The characters of a permission string.
unfoldable pub has_bit : ℕ → ℕ → Bool
has_bit mode bit = mode / bit % 2 == 1

unfoldable pub type_char : ℕ → ℕ
unfolding mode_type
type_char mode =
    let t = mode_type mode in
    if t == 4
    then 100
    else if t == 8
    then 45
    else if t == 10
    then 108
    else if t == 2
    then 99
    else if t == 6
    then 98
    else if t == 1
    then 112
    else if t == 12
    then 115
    else 63

unfoldable pub flag_char : Bool → ℕ → ℕ
flag_char b c = if b then c else 45

-- The x of a class, with the letter that a special bit puts in its place.
unfoldable pub exec_char : Bool → Bool → ℕ → ℕ → ℕ
exec_char x special lower upper =
    if x then (if special then lower else 120) else (if special then upper else 45)

-- mode_to_perms, without the 0 at the end.
unfoldable pub mode_to_perms : ℕ → List ℕ
unfolding type_char flag_char exec_char has_bit
mode_to_perms mode =
    type_char mode
    ∷ flag_char (has_bit mode 256) 114
    ∷ flag_char (has_bit mode 128) 119
    ∷ exec_char (has_bit mode 64) (has_bit mode 2048) 115 83
    ∷ flag_char (has_bit mode 32) 114
    ∷ flag_char (has_bit mode 16) 119
    ∷ exec_char (has_bit mode 8) (has_bit mode 1024) 115 83
    ∷ flag_char (has_bit mode 4) 114
    ∷ flag_char (has_bit mode 2) 119
    ∷ exec_char (has_bit mode 1) (has_bit mode 512) 116 84
    ∷ []
