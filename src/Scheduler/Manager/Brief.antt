-- ===== src/Scheduler/Manager/Brief.antt =====
-- The message of a schedule is short.
use infra_shelf.Common.{
  ℕ, zero, suc, Bytes, true, [], ◌∷◌, leb, length, take, ◌≤◌, ◌≡◌, refl, arith, length-append,
  Bool-cases, inl, inr,
}
use infra_shelf.Common.Text.{codes, trim_space}
use infra_shelf.Scheduler.Manager.{brief_output}

length-take : (n : ℕ) (s : Bytes) → length (take n s) ≤ n
length-take zero s = omega arith
length-take (suc n) [] = omega arith
length-take (suc n) (c ∷ s) = omega (arith, length-take n s)

leb-le : (a b : ℕ) → leb a b ≡ true → a ≤ b
leb-le a b h = grind arith

-- `BriefOutput` is never longer than 303 bytes, and gives an output that is at most 300 bytes long,
-- its ends trimmed, as it is.
pub brief_output_lem :
    (output : Bytes)
    → (length (brief_output output) ≤ 303)
      × (leb (length (trim_space output)) 300 ≡ true → brief_output output ≡ trim_space output)
unfolding brief_output
brief_output_lem output = elim (Bool-cases (leb (length (trim_space output)) 300)) [
  | inl fits ↦ rw fits (omega (arith, leb-le (length (trim_space output)) 300 fits), λ _. refl)
  | inr longer ↦ rw longer (
    omega (
      arith,
      length-append {0} (take 300 (trim_space output)) (codes "..."),
      length-take 300 (trim_space output),
    ),
    λ h. absurd (cc h),
  )
]
