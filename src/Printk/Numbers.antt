-- ===== src/Printk/Numbers.antt =====
-- The numbers that src/printf.c and `snprintf` of src/string.c write.
use kfs.Prelude.{
  ℕ, zero, suc, ◌+◌, ◌-◌, ◌*◌, ◌/◌, ◌%◌, ◌^◌, ◌<◌, ◌≤◌, ◌≡◌, ◌⊎◌, refl, ap, ap₂, subst, ◌∙◌, inl,
  inr, true, List, [], ◌∷◌, ◌++◌, ◌==◌, ltb, map, ℤ, pos, negsuc, if◌then◌else◌, arith, Bool-cases,
  ◌≢◌, false, length, length-append, get_or, get_or-append, All, All-snoc, ◌&&◌, ◌||◌, leb,
}
use native.Mathlib.Nat.{mod-lt, pow-suc, pow-zero, div-lt_iff_lt-mul, div-add-mod'}
use mathlib.Core.List.{reverse, reverse-cons}
use kfs.CString.{digits_low}
use kfs.CString.Format.{hex_digit}
use kfs.Vga.{Vga, vga_print, vga_putchar}
use kfs.Printk.{print_uint, print_int}

-- The value of a digit, `0` to `9` and `a` to `f`.
abbrev pub digit_value : ℕ → ℕ
digit_value c = if ltb c b'a' then c - b'0' else c - b'a' + 10

-- The number that a text of digits stands for after the number `n` of the digits before it.
pub read_digits : (base n : ℕ) → List ℕ → ℕ
read_digits base n [] = n
read_digits base n (c ∷ cs) = read_digits base (n * base + digit_value c) cs

abbrev pub read_number : ℕ → List ℕ → ℕ
read_number base = read_digits base 0

-- A digit of the base, in lower case.
abbrev pub IsDigit : (base c : ℕ) → Type 0
IsDigit base c = (digit_value c < base) × (leb b'0' c && (leb c b'9' || leb b'a' c) ≡ true)

read_digits-snoc :
    (base n c : ℕ) (cs : List ℕ)
    → read_digits base n (cs ++ (c ∷ [])) ≡ read_digits base n cs * base + digit_value c
unfolding read_digits
read_digits-snoc base n c [] = refl
read_digits-snoc base n c (d ∷ cs) = read_digits-snoc base (n * base + digit_value d) c cs

digit_value-hex_digit : (d : ℕ) → d < 16 → digit_value (hex_digit d) ≡ d
digit_value-hex_digit d h = ground arith

abbrev written : (fuel base num : ℕ) → List ℕ
written fuel base num = reverse (map hex_digit (digits_low fuel base num))

written_zero : (fuel base : ℕ) → written fuel base 0 ≡ []
unfolding digits_low
written_zero zero base = refl
written_zero (suc fuel) base = refl

module _ (base : ℕ) (low : 1 < base) (high : base ≤ 16) where
  last_digit : (num : ℕ) → digit_value (hex_digit (num % base)) ≡ num % base
  last_digit num = digit_value-hex_digit _ (omega (arith, mod-lt num {m = base} (omega arith)))

  read-written : (fuel num : ℕ) → num < base ^ fuel → read_number base (written fuel base num) ≡ num
  unfolding digits_low read_digits
  read-written zero num h = omega (arith, pow-zero base, h)
  read-written (suc fuel) num h = elim (Bool-cases (num == 0)) [
    | inl z ↦ rw z (ground arith)
    | inr z ↦
        let small : num / base < base ^ fuel =
          (div-lt_iff_lt-mul {k = base} {x = num} {y = base ^ fuel} (omega arith)).1
            (subst (λ k. num < k) (pow-suc base fuel) h) in
        let ih = read-written fuel (num / base) small in
        rw
          (
            z,
            reverse-cons (hex_digit (num % base))
                (map hex_digit (digits_low fuel base (num / base))),
            read_digits-snoc base 0 (hex_digit (num % base)) (written fuel base (num / base)),
          )
          (ap₂ (λ a b. a * base + b) ih (last_digit num) ∙ div-add-mod' num base)
  ]

  written_digits : (fuel num : ℕ) → All (IsDigit base) (written fuel base num)
  unfolding digits_low
  written_digits zero num = tt
  written_digits (suc fuel) num = elim (Bool-cases (num == 0)) [
    | inl z ↦ rw z tt
    | inr z ↦
        let small = mod-lt num {m = base} (omega arith) in
        rw
          (
            z,
            reverse-cons (hex_digit (num % base))
                (map hex_digit (digits_low fuel base (num / base))),
          )
          (All-snoc (IsDigit base) (written fuel base (num / base)) _
            (written_digits fuel (num / base)) (ground (arith, small, high)))
  ]

  -- A number that is not 0 has digits, and the first of them is not `0`.
  written_first :
      (fuel num : ℕ)
      → num < base ^ fuel
      → num ≢ 0
      → (0 < length (written fuel base num)) × (get_or (written fuel base num) 0 0 ≢ b'0')
  unfolding digits_low
  written_first zero num h n = absurd (n (omega (arith, pow-zero base, h)))
  written_first (suc fuel) num h n =
      let z : (num == 0) ≡ false = ground arith in
      let small : num / base < base ^ fuel =
        (div-lt_iff_lt-mul {k = base} {x = num} {y = base ^ fuel} (omega arith)).1
          (subst (λ k. num < k) (pow-suc base fuel) h) in
      let before = written fuel base (num / base) in
      let last = hex_digit (num % base) in
      let longer = length-append before (last ∷ []) in
      rw (z, reverse-cons last (map hex_digit (digits_low fuel base (num / base))))
        (elim (Bool-cases (num / base == 0)) [
          | inl q ↦
              let zeroth : num / base ≡ 0 = ground arith in
              let none : before ≡ [] = ap (written fuel base) zeroth ∙ written_zero fuel base in
              let same : num % base ≡ num =
                omega (arith, ap (λ k. k * base + num % base) zeroth, div-add-mod' num base) in
              rw none (omega arith, ground (arith, same, last_digit num))
          | inr q ↦
              let (some_digits, first) = written_first fuel (num / base) small (ground arith) in
              (omega (arith, longer), rw (get_or-append before (last ∷ []) 0 0 some_digits) first)
        ])

-- The text of a number in base 10 or 16, which is also what the conversions of `snprintf` write.
unfoldable pub uint_text : (base num : ℕ) → List ℕ
uint_text base num = if num == 0 then b'0' ∷ [] else written 32 base num

print_uint_lem :
    (st : Vga) (num base : ℕ) → print_uint st num base ≡ vga_print st (uint_text base num)
unfolding print_uint uint_text vga_print
print_uint_lem st num base = elim (Bool-cases (num == 0)) [ inl z ↦ rw z refl | inr z ↦ rw z refl ]

uint_text-read :
    (base num : ℕ)
    → 1 < base
    → base ≤ 16
    → num < base ^ 32
    → read_number base (uint_text base num) ≡ num
unfolding uint_text read_digits
uint_text-read base num l k h = elim (Bool-cases (num == 0)) [
  | inl z ↦ rw z (ground arith)
  | inr z ↦ rw z (read-written base l k 32 num h)
]

-- No digit is left out and none is in front for nothing: `0` stands first in the text of 0 alone.
abbrev pub IsShortest : (num : ℕ) → List ℕ → Type 0
IsShortest num digits =
    (0 < length digits) × (num ≢ 0 → get_or digits 0 0 ≢ b'0') × (num ≡ 0 → digits ≡ b'0' ∷ [])

uint_text-IsShortest :
    (base num : ℕ) → 1 < base → base ≤ 16 → num < base ^ 32 → IsShortest num (uint_text base num)
unfolding uint_text
uint_text-IsShortest base num l k h = elim (Bool-cases (num == 0)) [
  | inl z ↦ rw z (omega arith, (λ n. absurd (n (ground arith))), λ e. refl)
  | inr z ↦
      let n : num ≢ 0 = ground arith in
      let first = written_first base l k 32 num h n in
      rw z (first.0, (λ m. first.1), λ e. absurd (n e))
]

-- The sign and the magnitude of an integer.
abbrev pub sign : ℤ → List ℕ
sign (pos n) = []
sign (negsuc n) = b'-' ∷ []

abbrev pub magnitude : ℤ → ℕ
magnitude (pos n) = n
magnitude (negsuc n) = n + 1

uint_text_digits : (base num : ℕ) → 1 < base → base ≤ 16 → All (IsDigit base) (uint_text base num)
unfolding uint_text
uint_text_digits base num l h = elim (Bool-cases (num == 0)) [
  | inl z ↦ rw z ((omega arith, refl), tt)
  | inr z ↦ rw z (written_digits base l h 32 num)
]

reads :
    (st : Vga) (num base b : ℕ)
    → base ≡ b
    → 1 < b
    → b ≤ 16
    → num < b ^ 32
    → (text : List ℕ) × (print_uint st num base ≡ vga_print st text)
      × All (IsDigit base) text
      × IsShortest num text
      × (read_number base text ≡ num)
reads st num base b e l k h = (
  uint_text b num,
  ap (λ x. print_uint st num x) e ∙ print_uint_lem st num b,
  rw e (uint_text_digits b num l k),
  uint_text-IsShortest b num l k h,
  rw e (uint_text-read b num l k h),
)

-- printk prints an `unsigned int` in base 10 or 16 as the shortest text of digits of the base that
-- reads as the number.
print_uint_reads :
    (st : Vga) (num base : ℕ)
    → (base ≡ 10) ⊎ (base ≡ 16)
    → num < 0x100000000
    → (text : List ℕ) × (print_uint st num base ≡ vga_print st text)
      × All (IsDigit base) text
      × IsShortest num text
      × (read_number base text ≡ num)
print_uint_reads st num base (inl e) h =
    reads st num base 10 e (omega arith) (omega arith) (omega arith)
print_uint_reads st num base (inr e) h =
    reads st num base 16 e (omega arith) (omega arith) (omega arith)

-- printk prints every `int`, -2 ^ 31 included, as a minus sign where it is negative and then decimal
-- digits that read as its magnitude: a single `0` for 0, and no `0` in front otherwise.
pub print_int_reads :
    (st : Vga) (z : ℤ)
    → magnitude z ≤ 0x80000000
    → (digits : List ℕ) × (print_int st z ≡ vga_print st (sign z ++ digits))
      × All (IsDigit 10) digits
      × IsShortest (magnitude z) digits
      × (read_number 10 digits ≡ magnitude z)
unfolding print_int vga_print
print_int_reads st (pos n) h = print_uint_reads st n 10 (inl refl) (omega arith)
print_int_reads st (negsuc n) h =
    let (text, shown, digits, shortest, value) =
      print_uint_reads (vga_putchar st b'-') (n + 1) 10 (inl refl) (omega arith) in
    (text, shown, digits, shortest, value)
