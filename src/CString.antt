-- ===== src/CString.antt =====
-- The string functions of src/string.c, over bytes in memory.
--
-- A pointer is the list of the bytes from it to the end of its array; a read or write past that end
-- is `none`. A string ends at its first zero byte.
mod Compare
mod Copy
pub mod Format
mod Tests
use kfs.Prelude.{
  ℕ, zero, suc, ◌+◌, ◌-◌, ◌%◌, ◌/◌, Bool, true, false, ◌&&◌, ◌||◌, not, Option, none, some, List,
  [], ◌∷◌, ◌++◌, ◌==◌, ltb, ℤ, pos, negsuc, if◌then◌else◌, length,
}
use mathlib.Core.Option

-- Two steps of which the first may run past an array.
infixl 5 ◌>>=◌
abbrev pub ◌>>=◌ {ℓ κ} : {A : Type ℓ} {B : Type κ} → Option A → (A → Option B) → Option B
none >>= f = none
some a >>= f = f a

pub strlen : List ℕ → Option ℕ
strlen [] = none
strlen (c ∷ cs) = let rest = strlen cs in if c == 0 then some 0 else Option.map suc rest

-- The difference of two bytes.
abbrev pub byte_sub : ℕ → ℕ → ℤ
byte_sub a b = if ltb a b then negsuc (b - a - 1) else pos (a - b)

pub strcmp : List ℕ → List ℕ → Option ℤ
strcmp [] t = none
strcmp (a ∷ s) [] = none
strcmp (a ∷ s) (b ∷ t) =
    let rest = strcmp s t in if not (a == 0) && (a == b) then rest else some (byte_sub a b)

pub strncmp : List ℕ → List ℕ → ℕ → Option ℤ
strncmp s t zero = some (pos 0)
strncmp [] t (suc n) = none
strncmp (a ∷ s) [] (suc n) = none
strncmp (a ∷ s) (b ∷ t) (suc n) =
    let rest = strncmp s t n in if not (a == 0) && (a == b) then rest else some (byte_sub a b)

-- The offset of the byte found; the inner `none` is NULL. `c` is a byte.
pub strchr : List ℕ → ℕ → Option (Option ℕ)
strchr [] c = none
strchr (a ∷ s) c =
    let rest = strchr s c in
    if a == 0
    then (if c == 0 then some (some 0) else some none)
    else if a == c
    then some (some 0)
    else Option.map (Option.map suc) rest

-- The bytes of `dest` after the call.
pub strcpy : List ℕ → List ℕ → Option (List ℕ)
strcpy [] src = none
strcpy (d ∷ dest) [] = none
strcpy (d ∷ dest) (c ∷ src) =
    let rest = strcpy dest src in if c == 0 then some (0 ∷ dest) else Option.map (λ r. c ∷ r) rest

-- `num` bytes with one value, taken modulo 256.
pub memset : List ℕ → ℕ → ℕ → Option (List ℕ)
memset p value zero = some p
memset [] value (suc num) = none
memset (x ∷ p) value (suc num) = Option.map (λ r. (value % 256) ∷ r) (memset p value num)

pub memcpy : List ℕ → List ℕ → ℕ → Option (List ℕ)
memcpy dest src zero = some dest
memcpy [] src (suc num) = none
memcpy (d ∷ dest) [] (suc num) = none
memcpy (d ∷ dest) (c ∷ src) (suc num) = Option.map (λ r. c ∷ r) (memcpy dest src num)

-- The second loop of `strncpy` is `memset` with 0.
pub strncpy : List ℕ → List ℕ → ℕ → Option (List ℕ)
unfolding memset
strncpy dest src zero = some dest
strncpy [] src (suc n) = none
strncpy (d ∷ dest) [] (suc n) = none
strncpy (d ∷ dest) (c ∷ src) (suc n) =
    let rest = strncpy dest src n in
    if c == 0 then memset (d ∷ dest) 0 (suc n) else Option.map (λ r. c ∷ r) rest

-- An argument of `snprintf`: a string (`none` is NULL), an `int` or an `unsigned int`.
pub data Arg : Type 0 where
  str : Option (List ℕ) → Arg
  int : ℤ → Arg
  uint : ℕ → Arg

-- The digits of a number, lowest first, at most `fuel` of them.
unfoldable pub digits_low : ℕ → ℕ → ℕ → List ℕ
digits_low zero base num = []
digits_low (suc fuel) base num =
    let rest = digits_low fuel base (num / base) in if num == 0 then [] else num % base ∷ rest
