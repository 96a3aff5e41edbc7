-- ===== src/Worker/Backoff.antt =====
-- apps/runtime-worker/src/worker.ts: how long a retry waits.
use Prim.Native.Nat.pow
use ehfconcept.Prelude.{ℕ, ◌-◌, ◌*◌, ◌^◌, suc, min, ◌≡◌, sym, ap, ◌∙◌, arith}
use ehfconcept.Worker.Settle.{Settings, backoff_ms}

doubled : (m p : ℕ) → min m (2 * p) ≡ min m (2 * min m p)
doubled m p = omega arith

twice : (b q : ℕ) → b * (q * 2) ≡ 2 * (b * q)
twice b q = grind arith

-- The first retry waits for the base time, each further one twice as long as the one before, but none
-- longer than the maximum.
pub backoff_ms-doubles :
    (s : Settings) (n : ℕ)
    → (backoff_ms s 1 ≡ min s.retry_max_ms s.retry_base_ms)
      × (backoff_ms s (suc (suc n)) ≡ min s.retry_max_ms (2 * backoff_ms s (suc n)))
unfolding backoff_ms
backoff_ms-doubles s n =
    let two : suc (suc n) - 1 ≡ suc n = omega arith in
    let one : suc n - 1 ≡ n = omega arith in
    let m = s.retry_max_ms in
    let b = s.retry_base_ms in
    (
      ap (λ x. min m x) (omega arith),
      ap (λ k. min m (b * 2 ^ k)) two
          ∙ ap (λ q. min m (b * q)) (pow.suc 2 n)
          ∙ ap (λ x. min m x) (twice b (2 ^ n))
          ∙ doubled m (b * 2 ^ n)
          ∙ ap (λ k. min m (2 * min m (b * 2 ^ k))) (sym one),
    )
