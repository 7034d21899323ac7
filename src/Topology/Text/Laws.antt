-- ===== src/Topology/Text/Laws.antt =====
-- Numbers that are printed and read again.
use Prim.Native.Nat.{◌/◌, ◌%◌}
use claw_tune.Base.{
  ℕ, zero, suc, ◌+◌, ◌-◌, ◌*◌, ◌≤◌, ◌<◌, ◌≡◌, ◌≢◌, refl, sym, ap, ltb, ltb→lt, Bool-cases, inl, inr,
  pos, Bool, true, false, ◌&&◌, some, List, [], ◌∷◌, ◌++◌, All, if◌then◌else◌, ◌==◌, arith,
}
use claw_tune.Topology.Text.{
  Text, is_space, is_nil, strip_left, strip_right, strip, scan, signed, int, digits, str,
}

abbrev pub IsDigit : ℕ → Type 0
IsDigit c = (b'0' ≤ c) × (c ≤ b'9')

-- A digit or the dash of a range.
abbrev pub IsPlain : ℕ → Type 0
IsPlain c = (b'-' ≤ c) × (c ≤ b'9')

pub All-append :
    {A : Type 0} (P : A → Type 0) (xs ys : List A) → All P xs → All P ys → All P (xs ++ ys)
All-append P [] ys h k = k
All-append P (x ∷ xs) ys h k = (h.0, All-append P xs ys h.1 k)

pub All-IsPlain : (s : Text) → All IsDigit s → All IsPlain s
All-IsPlain [] h = tt
All-IsPlain (c ∷ s) h = ((omega (arith, h.0.0), h.0.1), All-IsPlain s h.1)

pub plain_no_space : (c : ℕ) → IsPlain c → is_space c ≡ false
plain_no_space c h = ground arith

strip_left-plain : (s : Text) → All IsPlain s → strip_left s ≡ s
unfolding strip_left
strip_left-plain [] h = refl
strip_left-plain (c ∷ s) h = rw (plain_no_space c h.0)

strip_right-plain : (s : Text) → All IsPlain s → strip_right s ≡ s
unfolding strip_right
strip_right-plain [] h = refl
strip_right-plain (c ∷ s) h = rw (strip_right-plain s h.1, plain_no_space c h.0) (kept s)
  where
    kept : (t : Text) → (if is_nil t && false then [] else c ∷ t) ≡ c ∷ t
    kept [] = refl
    kept (_ ∷ _) = refl

pub strip-plain : (s : Text) → All IsPlain s → strip s ≡ s
unfolding strip
strip-plain s h = rw (strip_left-plain s h) (strip_right-plain s h)

digits-zero : (fuel : ℕ) (out : Text) → digits fuel 0 out ≡ out
unfolding digits
digits-zero zero out = refl
digits-zero (suc fuel) out = refl

scan_digit :
    (a : Bool) (c n : ℕ) (s : Text)
    → IsDigit c
    → scan a (c ∷ s) n ≡ scan true s (n * 10 + (c - b'0'))
unfolding scan
scan_digit a c n s h = ground arith

-- One round for a number that is not zero.
digits_more :
    (fuel n : ℕ) (out : Text)
    → 0 < n
    → digits (suc fuel) n out ≡ digits fuel (n / 10) ((b'0' + n % 10) ∷ out)
unfolding digits
digits_more fuel n out h = ground (arith, h)

last-IsDigit : (n : ℕ) → IsDigit (b'0' + n % 10)
last-IsDigit n = (omega arith, omega arith)

-- The last digit behind the others.
scan_last :
    (a : Bool) (n : ℕ) (out : Text) → scan a ((b'0' + n % 10) ∷ out) (n / 10) ≡ scan true out n
scan_last a n out =
    rw (scan_digit a (b'0' + n % 10) (n / 10) out (last-IsDigit n))
      (ap (scan true out) (omega arith))

-- The fuel is enough: the digits of a number are read as the number.
scan-digits :
    (a : Bool) (fuel n : ℕ) (out : Text)
    → 0 < n
    → n ≤ fuel
    → scan a (digits fuel n out) 0 ≡ scan true out n
scan-digits a zero n out p h = absurd (omega (arith, p, h))
scan-digits a (suc fuel) n out p h =
    rw (digits_more fuel n out p) (elim (Bool-cases (ltb 0 (n / 10))) [
      | inl q ↦
          rw
            (scan-digits a fuel (n / 10) ((b'0' + n % 10) ∷ out) (ltb→lt 0 (n / 10) q)
              (omega (arith, h, p)))
            (scan_last true n out)
      | inr q ↦
          let z : n / 10 ≡ 0 = ground (arith, q) in
          rw (z, digits-zero fuel ((b'0' + n % 10) ∷ out)) (rw (sym z) (scan_last a n out))
    ])

digits-IsDigit : (fuel n : ℕ) (out : Text) → All IsDigit out → All IsDigit (digits fuel n out)
digits-IsDigit zero n out h = unfold digits in h
digits-IsDigit (suc fuel) zero out h = rw (digits-zero (suc fuel) out) h
digits-IsDigit (suc fuel) (suc k) out h =
    rw (digits_more fuel (suc k) out (omega arith))
      (digits-IsDigit fuel (suc k / 10) ((b'0' + suc k % 10) ∷ out) (last-IsDigit (suc k), h))

digits-ne-nil : (fuel n c : ℕ) (out : Text) → digits fuel n (c ∷ out) ≢ []
digits-ne-nil zero n c out e = unfold digits in absurd cc
digits-ne-nil (suc fuel) zero c out e = absurd (cc (digits-zero (suc fuel) (c ∷ out), e))
digits-ne-nil (suc fuel) (suc k) c out e =
    digits-ne-nil fuel (suc k / 10) (b'0' + suc k % 10) (c ∷ out)
      (cc (digits_more fuel (suc k) (c ∷ out) (omega arith), e))

str-digits : (k : ℕ) → str (suc k) ≡ digits (suc k) (suc k) []
unfolding str
str-digits k = ground arith

pub str-IsDigit : (n : ℕ) → All IsDigit (str n)
str-IsDigit zero = unfold str in ((omega arith, omega arith), tt)
str-IsDigit (suc k) = rw (str-digits k) (digits-IsDigit (suc k) (suc k) [] tt)

pub str-ne-nil : (n : ℕ) → str n ≢ []
str-ne-nil zero e = unfold str in absurd cc
str-ne-nil (suc k) e =
    digits-ne-nil k (suc k / 10) (b'0' + suc k % 10) []
      (cc (digits_more k (suc k) [] (omega arith), str-digits k, e))

scan-str : (n : ℕ) → scan false (str n) 0 ≡ some n
scan-str zero = unfold str scan in refl
scan-str (suc k) =
    rw (str-digits k, scan-digits false (suc k) (suc k) [] (omega arith) (omega arith))
      (unfold scan in refl)

signed_digits :
    (s : Text) (n : ℕ) → All IsDigit s → s ≢ [] → scan false s 0 ≡ some n → signed s ≡ some (pos n)
signed_digits [] n h ne e = absurd (ne refl)
signed_digits (c ∷ s) n h ne e =
    let dash : (c == b'-') ≡ false = ground (arith, h.0) in
    let plus : (c == b'+') ≡ false = ground (arith, h.0) in rw (dash, plus, e) refl

pub int-str : (n : ℕ) → int (str n) ≡ some (pos n)
unfolding int
int-str n =
    rw (strip-plain (str n) (All-IsPlain (str n) (str-IsDigit n)))
      (signed_digits (str n) n (str-IsDigit n) (str-ne-nil n) (scan-str n))
