-- ===== src/CString/Format.antt =====
-- `snprintf` of src/string.c.
use kfs.Prelude.{
  ℕ, ◌+◌, ◌-◌, ◌<◌, ◌≤◌, ◌≡◌, false, ◌||◌, not, Option, none, some, List, [], ◌∷◌, ◌++◌, ◌==◌, ltb,
  ℤ, pos, negsuc, arith, Bool-cases, inl, inr, subst, if◌then◌else◌, length, length-append, map,
}
use mathlib.Core.List.{reverse}
use kfs.CString.{Arg, str, int, uint, ◌>>=◌, digits_low}

-- Bytes are appended while fewer than `limit`, which is `size - 1`, are written.
unfoldable pub emit : ℕ → List ℕ → List ℕ → List ℕ
emit limit out [] = out
emit limit out (c ∷ cs) =
    let rest = emit limit (out ++ (c ∷ [])) cs in if ltb (length out) limit then rest else out

-- The loop of `%s`, which reads the string up to its end mark or the limit.
unfoldable emit_string : ℕ → List ℕ → List ℕ → Option (List ℕ)
emit_string limit out [] = none
emit_string limit out (c ∷ s) =
    let rest = emit_string limit (out ++ (c ∷ [])) s in
    if c == 0 then some out else if ltb (length out) limit then rest else some out

-- The digits in the order in which they are printed. Ten decimal and eight hexadecimal digits hold
-- every 32-bit number.
unfoldable pub decimal : ℕ → List ℕ
decimal n = if n == 0 then b'0' ∷ [] else reverse (map (λ d. b'0' + d) (digits_low 10 10 n))

abbrev pub hex_digit : ℕ → ℕ
hex_digit d = if ltb d 10 then b'0' + d else b'a' + (d - 10)

unfoldable pub hexadecimal : ℕ → List ℕ
hexadecimal n = if n == 0 then b'0' ∷ [] else reverse (map hex_digit (digits_low 8 16 n))

-- The sign is written if there is room. The negation of -2 ^ 31 is -2 ^ 31 again, which has no digit
-- in the loop of the code.
unfoldable pub emit_int : ℕ → List ℕ → ℤ → List ℕ
unfolding emit decimal
emit_int limit out (pos n) = emit limit out (decimal n)
emit_int limit out (negsuc n) =
    emit limit (emit limit out (b'-' ∷ [])) (if n == 0x7fffffff then [] else decimal (n + 1))

-- One conversion, by the byte after `%`; `none` where the next argument is not of its kind.
unfoldable pub convert : ℕ → ℕ → List Arg → List ℕ → Option (List ℕ × List Arg)
unfolding emit_string emit_int hexadecimal
convert limit d (str (some s) ∷ args) out =
    if d == b's'
    then (emit_string limit out s >>= λ o. some (o, args))
    else if d == b'%'
    then some (out ++ (d ∷ []), str (some s) ∷ args)
    else if (d == b'd') || (d == b'x')
    then none
    else some (out, str (some s) ∷ args)
convert limit d (str none ∷ args) out =
    if d == b's'
    then some (out, args)
    else if d == b'%'
    then some (out ++ (d ∷ []), str none ∷ args)
    else if (d == b'd') || (d == b'x')
    then none
    else some (out, str none ∷ args)
convert limit d (int z ∷ args) out =
    if d == b'd'
    then some (emit_int limit out z, args)
    else if d == b'%'
    then some (out ++ (d ∷ []), int z ∷ args)
    else if (d == b's') || (d == b'x')
    then none
    else some (out, int z ∷ args)
convert limit d (uint n ∷ args) out =
    if d == b'x'
    then some (emit limit out (hexadecimal n), args)
    else if d == b'%'
    then some (out ++ (d ∷ []), uint n ∷ args)
    else if (d == b's') || (d == b'd')
    then none
    else some (out, uint n ∷ args)
convert limit d [] out =
    if d == b'%'
    then some (out ++ (d ∷ []), [])
    else if (d == b's') || ((d == b'd') || (d == b'x'))
    then none
    else some (out, [])

-- The loop over the format, with what is written so far. A `%` before the end mark makes the code
-- step over the mark and read on.
unfoldable pub format_from : ℕ → List ℕ → List Arg → List ℕ → Option (List ℕ)
unfolding convert
format_from limit [] args out = none
format_from limit (c ∷ []) args out =
    if (c == 0) || not (ltb (length out) limit) then some out else none
format_from limit (c ∷ d ∷ f) args out =
    let plain = format_from limit (d ∷ f) args (out ++ (c ∷ [])) in
    let special = convert limit d args out >>= λ (o, rest). format_from limit f rest o in
    if (c == 0) || not (ltb (length out) limit)
    then some out
    else if c == b'%'
    then special
    else plain

-- The text in `str`, whose length is the result, for a buffer of `size` bytes. A NULL buffer or
-- size 0 writes nothing.
unfoldable pub snprintf : ℕ → List ℕ → List Arg → Option (List ℕ)
unfolding format_from
snprintf size format args = if size == 0 then some [] else format_from (size - 1) format args []

emit-le : (limit : ℕ) (out cs : List ℕ) → length out ≤ limit → length (emit limit out cs) ≤ limit
unfolding emit
emit-le limit out [] h = h
emit-le limit out (c ∷ cs) h = elim (Bool-cases (ltb (length out) limit)) [
  | inl b ↦ rw b (emit-le limit (out ++ (c ∷ [])) cs (ground (arith, length-append out (c ∷ []))))
  | inr b ↦ rw b h
]

-- A result, if there is one, that is within the limit.
abbrev Within : ℕ → Option (List ℕ) → Type 0
Within limit none = Unit
Within limit (some o) = length o ≤ limit

emit_string-Within :
    (limit : ℕ) (out s : List ℕ) → length out ≤ limit → Within limit (emit_string limit out s)
unfolding emit_string
emit_string-Within limit out [] h = tt
emit_string-Within limit out (c ∷ s) h = elim (Bool-cases (c == 0)) [
  | inl z ↦ rw z h
  | inr z ↦ elim (Bool-cases (ltb (length out) limit)) [
    | inl b ↦
        rw (z, b)
          (emit_string-Within limit (out ++ (c ∷ [])) s
            (ground (arith, length-append out (c ∷ []))))
    | inr b ↦ rw (z, b) h
  ]
]

emit_int-le :
    (limit : ℕ) (out : List ℕ) (z : ℤ) → length out ≤ limit → length (emit_int limit out z) ≤ limit
unfolding emit_int
emit_int-le limit out (pos n) h = emit-le limit out (decimal n) h
emit_int-le limit out (negsuc n) h =
    emit-le limit (emit limit out (b'-' ∷ [])) _ (emit-le limit out (b'-' ∷ []) h)

-- The same for what a conversion leaves.
abbrev Converted : ℕ → Option (List ℕ × List Arg) → Type 0
Converted limit none = Unit
Converted limit (some (o, args)) = length o ≤ limit

string-Converted :
    (limit : ℕ) (r : Option (List ℕ)) (args : List Arg)
    → Within limit r
    → Converted limit (r >>= λ o. some (o, args))
string-Converted limit none args h = tt
string-Converted limit (some o) args h = h

convert-Converted :
    (limit d : ℕ) (args : List Arg) (out : List ℕ)
    → length out < limit
    → Converted limit (convert limit d args out)
unfolding convert
convert-Converted limit d (str (some s) ∷ args) out h = elim (Bool-cases (d == b's')) [
  | inl b ↦ rw b (string-Converted limit _ args (emit_string-Within limit out s (omega arith)))
  | inr b ↦ rw b (ground (arith, length-append out (d ∷ [])))
]
convert-Converted limit d (str none ∷ args) out h = ground (arith, length-append out (d ∷ []))
convert-Converted limit d (int z ∷ args) out h = elim (Bool-cases (d == b'd')) [
  | inl b ↦ rw b (emit_int-le limit out z (omega arith))
  | inr b ↦ rw b (ground (arith, length-append out (d ∷ [])))
]
convert-Converted limit d (uint n ∷ args) out h = elim (Bool-cases (d == b'x')) [
  | inl b ↦ rw b (emit-le limit out (hexadecimal n) (omega arith))
  | inr b ↦ rw b (ground (arith, length-append out (d ∷ [])))
]
convert-Converted limit d [] out h = ground (arith, length-append out (d ∷ []))

special-Within :
    (limit : ℕ) (f : List ℕ) (r : Option (List ℕ × List Arg))
    → ((args : List Arg) (out : List ℕ)
        → length out ≤ limit
        → Within limit (format_from limit f args out))
    → Converted limit r
    → Within limit (r >>= λ (o, rest). format_from limit f rest o)
special-Within limit f none ih h = tt
special-Within limit f (some (o, rest)) ih h = ih rest o h

format_from-Within :
    (limit : ℕ) (f : List ℕ) (args : List Arg) (out : List ℕ)
    → length out ≤ limit
    → Within limit (format_from limit f args out)
unfolding format_from
format_from-Within limit [] args out h = tt
format_from-Within limit (c ∷ []) args out h = ground arith
format_from-Within limit (c ∷ d ∷ f) args out h =
    elim (Bool-cases ((c == 0) || not (ltb (length out) limit))) [
      | inl z ↦ rw z h
      | inr z ↦ elim (Bool-cases (c == b'%')) [
        | inl b ↦
            rw (z, b)
              (special-Within limit f (convert limit d args out) (format_from-Within limit f)
                (convert-Converted limit d args out (ground arith)))
        | inr b ↦
            rw (z, b)
              (format_from-Within limit (d ∷ f) args (out ++ (c ∷ []))
                (ground (arith, length-append out (c ∷ []))))
      ]
    ]

-- Whatever the format and the arguments, what `snprintf` writes before the end mark is shorter than
-- the buffer of `size` bytes, so that the end mark still fits.
snprintf_bounded :
    (size : ℕ) (format : List ℕ) (args : List Arg) (out : List ℕ)
    → 0 < size
    → snprintf size format args ≡ some out
    → length out < size
unfolding snprintf
snprintf_bounded size format args out h e =
    let z : (size == 0) ≡ false = ground arith in
    let r : format_from (size - 1) format args [] ≡ some out = rw z at e in
    let w =
      subst (Within (size - 1)) r (format_from-Within (size - 1) format args [] (omega arith)) in
    omega (arith, w)
