-- ===== src/Base/Errors.antt =====
-- C functions that return 0 or -errno, with what they write through their out parameters.
use mathlib.Core.Path.{◌≡◌, refl}
use mathlib.Core.Logic.{◌⊎◌, inl, inr}
use mathlib.Core.Bool.{Bool, true, false}
use advfs_fuse.Base.Bools.{if◌then◌else◌}

-- The error numbers that the program returns; `errno` is one that the system reported.
pub data Errno : Type 0 where
  enoent eio eintr enomem enodev einval efbig erange enodata eoverflow eilseq enotsup : Errno
  enotdir enametoolong eisdir erofs enosys enospc e2big eexist estale : Errno

-- `stuck` is no value of the program: a list of system answers, or fuel, ran out.
pub data Result {ℓ} (T : Type ℓ) : Type ℓ where
  stuck : Result T
  err : Errno → Result T
  ok : T → Result T

-- The early return `if (err) return err;` behind a call, and the code after it.
infixl 5 ◌>>=◌
abbrev pub ◌>>=◌ {ℓ κ} : {S : Type ℓ} {T : Type κ} → Result S → (S → Result T) → Result T
stuck >>= next = stuck
err code >>= next = err code
ok s >>= next = next s

module _ {S T : Type 0} (next : S → Result T) {t : T} where
  -- Code that succeeds behind a call had the call succeed.
  pub >>=-eq-ok :
      (call : Result S) → call >>= next ≡ ok t → (s : S) × (next s ≡ ok t) × (call ≡ ok s)
  >>=-eq-ok stuck e = cc
  >>=-eq-ok (err code) e = cc
  >>=-eq-ok (ok s) e = (s, e, refl)

-- Code that succeeds behind a guard had the guard not hit.
pub guard-eq-ok :
    {S : Type 0} {s : S} (code : Errno) (b : Bool) (rest : Result S)
    → (if b then err code else rest) ≡ ok s
    → rest ≡ ok s
guard-eq-ok code true rest e = cc
guard-eq-ok code false rest e = e

-- The same, with what the guard says.
pub guard-eq-false :
    {S : Type 0} {s : S} (code : Errno) (b : Bool) (rest : Result S)
    → (if b then err code else rest) ≡ ok s
    → (b ≡ false) × (rest ≡ ok s)
guard-eq-false code true rest e = cc
guard-eq-false code false rest e = (refl, e)

pub require-eq-true :
    {S : Type 0} {s : S} (code : Errno) (b : Bool) (rest : Result S)
    → (if b then rest else err code) ≡ ok s
    → (b ≡ true) × (rest ≡ ok s)
require-eq-true code true rest e = (refl, e)
require-eq-true code false rest e = cc

-- Code that fails behind a call failed in the call or after it.
pub >>=-eq-err :
    {S T : Type 0} (next : S → Result T) {code : Errno} (call : Result S)
    → call >>= next ≡ err code
    → (call ≡ err code) ⊎ ((s : S) × (call ≡ ok s) × (next s ≡ err code))
>>=-eq-err next stuck e = cc
>>=-eq-err next (err c) e = inl cc
>>=-eq-err next (ok s) e = inr (s, refl, e)

module _ {S T : Type 0} where
  -- Two continuations that agree everywhere.
  pub >>=-ext :
      (call : Result S) (f g : S → Result T) → ((s : S) → f s ≡ g s) → call >>= f ≡ call >>= g
  >>=-ext stuck f g e = refl
  >>=-ext (err code) f g e = refl
  >>=-ext (ok s) f g e = e s

pub >>=-ok : {S : Type 0} (call : Result S) → call >>= (λ s. ok s) ≡ call
>>=-ok stuck = refl
>>=-ok (err code) = refl
>>=-ok (ok s) = refl

pub >>=-assoc :
    {R S T : Type 0} (call : Result R) (f : R → Result S) (g : S → Result T)
    → (call >>= f) >>= g ≡ call >>= (λ r. f r >>= g)
>>=-assoc stuck f g = refl
>>=-assoc (err code) f g = refl
>>=-assoc (ok r) f g = refl
