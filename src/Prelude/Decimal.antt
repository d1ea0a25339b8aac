-- ===== src/Prelude/Decimal.antt =====
-- `str(n)` of a natural number, and what reads it back.
use Prim.Native.Nat.{ℕ, zero, suc, ◌+◌, ◌-◌, ◌*◌, ◌/◌, ◌%◌, ◌<◌}
use mathlib.Core.Path.{◌≡◌, refl, ap, ◌∙◌}
use mathlib.Core.Bool.{Bool, true, ◌&&◌}
use mathlib.Core.List.{[], ◌∷◌, ◌++◌}
use mathlib.Core.Logic.{dite}
use mathlib.Core.WellFounded.{Acc}
use native.Mathlib.Decide.{dec_lt}
use native.Mathlib.Omega.{arith}
use syncmaster.Prelude.Tests.{leb, if◌then◌else◌}
use syncmaster.Prelude.Texts.{Text, all}

acc_below : (k n : ℕ) → n < k → Acc ◌<◌ n
acc_below zero n h = absurd (omega arith)
acc_below (suc k) n h = Acc.intro n λ m lt. acc_below k m (omega arith)

tenth_lt : {n : ℕ} → 9 < n → n / 10 < n
tenth_lt h = omega arith

-- The digits of a number, in front of a text.
emit : (n : ℕ) → Acc ◌<◌ n → Text → Text
emit n (Acc.intro _ smaller) out =
    dite (dec_lt 9 n) (λ h. emit (n / 10) (smaller (n / 10) (tenth_lt h)) ((b'0' + n % 10) ∷ out))
      (λ _. (b'0' + n) ∷ out)

pub decimal : ℕ → Text → Text
decimal n = emit n (acc_below (suc n) n (omega arith))

abbrev pub is_digit : ℕ → Bool
is_digit c = leb b'0' c && leb c b'9'

-- The number that the digits at the start of a text add to.
unfoldable pub read_from : ℕ → Text → ℕ
read_from n [] = n
read_from n (c ∷ s) = let m = read_from (n * 10 + (c - b'0')) s in if is_digit c then m else n

read_digit :
    (n d : ℕ) (out : Text) → d < 10 → read_from n ((b'0' + d) ∷ out) ≡ read_from (n * 10 + d) out
unfolding read_from
read_digit n d out h = ground arith

read_from-emit : (n : ℕ) (a : Acc ◌<◌ n) (out : Text) → read_from 0 (emit n a out) ≡ read_from n out
unfolding emit
read_from-emit n (Acc.intro _ smaller) out =
    elim (dec_lt 9 n)
      as (λ more.
        read_from 0 (
          dite more (λ h. emit (n / 10) (smaller (n / 10) (tenth_lt h)) ((b'0' + n % 10) ∷ out))
            (λ _. (b'0' + n) ∷ out))
        ≡ read_from n out) [
          | yes more ↦
              rw
                (read_from-emit (n / 10) (smaller (n / 10) (tenth_lt more)) ((b'0' + n % 10) ∷ out))
                (read_digit (n / 10) (n % 10) out (omega arith)
                  ∙ ap (λ m. read_from m out)
                      (let same : n / 10 * 10 + n % 10 ≡ n = omega arith in same))
          | no single ↦
              read_digit 0 n out (omega arith)
              ∙ ap (λ m. read_from m out) (let same : 0 * 10 + n ≡ n = omega arith in same)
        ]

-- A number stands at the start of the text that it is printed in front of.
pub read_from-decimal : (n : ℕ) (out : Text) → read_from 0 (decimal n out) ≡ read_from n out
unfolding decimal
read_from-decimal n out = read_from-emit n (acc_below (suc n) n (omega arith)) out

all-emit :
    (p : ℕ → Bool)
    → ((d : ℕ) → d < 10 → p (b'0' + d) ≡ true)
    → (n : ℕ) (a : Acc ◌<◌ n) (out : Text) → all p out ≡ true
    → all p (emit n a out) ≡ true
unfolding emit
all-emit p digit n (Acc.intro _ smaller) out h =
    elim (dec_lt 9 n)
      as (λ more.
        all p (
          dite more (λ h. emit (n / 10) (smaller (n / 10) (tenth_lt h)) ((b'0' + n % 10) ∷ out))
            (λ _. (b'0' + n) ∷ out))
        ≡ true) [
          | yes more ↦
              all-emit p digit (n / 10) (smaller (n / 10) (tenth_lt more)) ((b'0' + n % 10) ∷ out)
                (rw (digit (n % 10) (omega arith)) h)
          | no single ↦ rw (digit n (omega arith)) h
        ]

pub all-decimal :
    (p : ℕ → Bool)
    → ((d : ℕ) → d < 10 → p (b'0' + d) ≡ true)
    → (n : ℕ) (out : Text) → all p out ≡ true
    → all p (decimal n out) ≡ true
unfolding decimal
all-decimal p digit n out h = all-emit p digit n (acc_below (suc n) n (omega arith)) out h

emit-append : (n : ℕ) (a : Acc ◌<◌ n) (out s : Text) → emit n a out ++ s ≡ emit n a (out ++ s)
unfolding emit
emit-append n (Acc.intro _ smaller) out s =
    elim (dec_lt 9 n)
      as (λ more.
        (dite more (λ h. emit (n / 10) (smaller (n / 10) (tenth_lt h)) ((b'0' + n % 10) ∷ out))
            (λ _. (b'0' + n) ∷ out))
          ++ s
        ≡ dite more
            (λ h. emit (n / 10) (smaller (n / 10) (tenth_lt h)) ((b'0' + n % 10) ∷ (out ++ s)))
            (λ _. (b'0' + n) ∷ (out ++ s))) [
              | yes more ↦
                  emit-append (n / 10) (smaller (n / 10) (tenth_lt more)) ((b'0' + n % 10) ∷ out) s
              | no single ↦ refl
            ]

pub decimal-append : (n : ℕ) (out s : Text) → decimal n out ++ s ≡ decimal n (out ++ s)
unfolding decimal
decimal-append n out s = emit-append n (acc_below (suc n) n (omega arith)) out s
