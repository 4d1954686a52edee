-- ===== src/Base/Widths.antt =====
-- The widths that a window may have, 8 through 15, one by one.
use Prim.Native.Nat.{ℕ, zero, suc, ◌≤◌}
use native.Mathlib.Omega.{arith}

module _ {ℓ} (P : ℕ → Type ℓ) where
  pub width_cases :
      P 8 → P 9 → P 10 → P 11 → P 12 → P 13 → P 14 → P 15 → (n : ℕ) → 8 ≤ n → n ≤ 15 → P n
  width_cases p8 p9 p10 p11 p12 p13 p14 p15 zero lo hi = absurd (omega arith)
  width_cases p8 p9 p10 p11 p12 p13 p14 p15 (suc zero) lo hi = absurd (omega arith)
  width_cases p8 p9 p10 p11 p12 p13 p14 p15 (suc (suc zero)) lo hi = absurd (omega arith)
  width_cases p8 p9 p10 p11 p12 p13 p14 p15 (suc (suc (suc zero))) lo hi = absurd (omega arith)
  width_cases p8 p9 p10 p11 p12 p13 p14 p15 (suc (suc (suc (suc zero)))) lo hi =
      absurd (omega arith)
  width_cases p8 p9 p10 p11 p12 p13 p14 p15 (suc (suc (suc (suc (suc zero))))) lo hi =
      absurd (omega arith)
  width_cases p8 p9 p10 p11 p12 p13 p14 p15 (suc (suc (suc (suc (suc (suc zero)))))) lo hi =
      absurd (omega arith)
  width_cases p8 p9 p10 p11 p12 p13 p14 p15 (suc (suc (suc (suc (suc (suc (suc zero))))))) lo hi =
      absurd (omega arith)
  width_cases p8 p9 p10 p11 p12 p13 p14 p15 (suc (suc (suc (suc (suc (suc (suc (suc zero)))))))) lo
        hi =
      p8
  width_cases p8 p9 p10 p11 p12 p13 p14 p15
        (suc (suc (suc (suc (suc (suc (suc (suc (suc zero))))))))) lo hi =
      p9
  width_cases p8 p9 p10 p11 p12 p13 p14 p15
        (suc (suc (suc (suc (suc (suc (suc (suc (suc (suc zero)))))))))) lo hi =
      p10
  width_cases p8 p9 p10 p11 p12 p13 p14 p15
        (suc (suc (suc (suc (suc (suc (suc (suc (suc (suc (suc zero))))))))))) lo hi =
      p11
  width_cases p8 p9 p10 p11 p12 p13 p14 p15
        (suc (suc (suc (suc (suc (suc (suc (suc (suc (suc (suc (suc zero)))))))))))) lo hi =
      p12
  width_cases p8 p9 p10 p11 p12 p13 p14 p15
        (suc (suc (suc (suc (suc (suc (suc (suc (suc (suc (suc (suc (suc zero))))))))))))) lo hi =
      p13
  width_cases p8 p9 p10 p11 p12 p13 p14 p15
        (suc (suc (suc (suc (suc (suc (suc (suc (suc (suc (suc (suc (suc (suc zero)))))))))))))) lo
        hi =
      p14
  width_cases p8 p9 p10 p11 p12 p13 p14 p15
        (suc
          (suc (suc (suc (suc (suc (suc (suc (suc (suc (suc (suc (suc (suc (suc zero)))))))))))))))
        lo hi =
      p15
  width_cases p8 p9 p10 p11 p12 p13 p14 p15
        (suc (
          suc
            (suc (suc (suc (suc (suc (suc (suc (suc (suc (suc (suc (suc (suc (suc n))))))))))))))))
        lo hi =
      absurd (omega arith)
