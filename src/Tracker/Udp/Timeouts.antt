-- ===== src/Tracker/Udp/Timeouts.antt =====
-- `request`: how long the sender waits for an answer before it sends the packet again.
use tulva.Prelude.{
  ℕ, zero, suc, ◌+◌, ◌-◌, ◌*◌, ◌^◌, ◌≤◌, ◌≡◌, ap, ◌∙◌, if◌then◌else◌, ltb, min, arith, Bool-cases,
  inl, inr,
}

-- The goroutine that sends: `n` goes up to 8.
pub record Sender : Type 0 where
  pub n : ℕ
  pub total_attempts : ℕ

-- The timeout in seconds.
abbrev pub timeout : Sender → ℕ
timeout s = 15 * 2 ^ s.n

-- The timer has expired: the packet is sent once more.
unfoldable pub expire : Sender → Sender
expire s = record { total_attempts = suc s.total_attempts; n = if ltb s.n 8 then suc s.n else s.n }

abbrev pub new_sender : Sender
new_sender = record { n = 0; total_attempts = 0 }

-- The sender after so many timers have expired.
unfoldable pub expire_times : ℕ → Sender → Sender
unfolding expire
expire_times zero s = s
expire_times (suc k) s = expire_times k (expire s)

expire_times-from :
    (k : ℕ) (s : Sender)
    → s.n ≤ 8
    → ((expire_times k s).n ≡ min (s.n + k) 8)
      × ((expire_times k s).total_attempts ≡ s.total_attempts + k)
unfolding expire_times expire
expire_times-from zero s h = (omega (arith, h), omega arith)
expire_times-from (suc k) s h = elim (Bool-cases (ltb s.n 8)) [
  | inl more ↦
      let (n, attempts) = expire_times-from k (expire s) (ground (arith, more)) in
      (ground (arith, n, more), ground (arith, attempts))
  | inr most ↦
      let (n, attempts) = expire_times-from k (expire s) (ground (arith, most)) in
      (ground (arith, n, most), ground (arith, attempts))
]

double : (m : ℕ) → 2 ^ suc m ≡ 2 * 2 ^ m
double m = grind arith

no_longer : (m j : ℕ) → 2 ^ m ≤ 2 ^ (m + j)
no_longer m zero =
    omega (arith, ap (λ k. 2 ^ k) (let add_zero : m + 0 ≡ m = omega arith in add_zero))
no_longer m (suc j) = omega (
  arith,
  no_longer m j,
  double (m + j),
  ap (λ k. 2 ^ k) (let add_suc : m + suc j ≡ suc (m + j) = omega arith in add_suc),
)

longest : (m : ℕ) → m ≤ 8 → 2 ^ m ≤ 256
longest m h = omega (
  arith,
  no_longer m (8 - m),
  ap (λ k. 2 ^ k) (let all : m + (8 - m) ≡ 8 = omega (arith, h) in all),
)

-- After `k` packets without an answer the sender has sent `k` more, and waits for 15 seconds times 2 to the power `k`,
-- and for no more than 3840 seconds.
pub timeout-expire_times :
    (k : ℕ)
    → (timeout (expire_times k new_sender) ≡ 15 * 2 ^ min k 8)
      × ((expire_times k new_sender).total_attempts ≡ k)
      × (timeout (expire_times k new_sender) ≤ 3840)
timeout-expire_times k =
    let (n, attempts) = expire_times-from k new_sender (omega arith) in
    let e : timeout (expire_times k new_sender) ≡ 15 * 2 ^ min k 8 =
      ap (λ m. 15 * 2 ^ m)
        (n ∙ ap (λ m. min m 8) (let zero_add : 0 + k ≡ k = omega arith in zero_add)) in
    (
      e,
      omega (arith, attempts),
      omega (arith, longest (expire_times k new_sender).n (omega (arith, n))),
    )
