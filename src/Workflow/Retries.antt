-- ===== src/Workflow/Retries.antt =====
-- packages/adopt-workflow/src/adopt_workflow/api.py: `RetryPolicy` and `backoff_delays_ms`.
use native.Mathlib.Nat.{mul_assoc, mul_comm, pow-suc}
use onboard_core.Base.{
  ℕ, zero, suc, ◌*◌, ◌^◌, ◌<◌, min, Bool, ◌≡◌, refl, sym, ap, ◌∙◌, Option, none, some, List, [],
  ◌∷◌, length, ◌&&◌, leb, arith,
}

-- `flat` is the backoff "none".
pub data Backoff : Type 0 where
  exponential flat : Backoff

pub record RetryPolicy : Type 0 where
  pub max_attempts : ℕ
  pub backoff : Backoff
  pub base_ms : ℕ
  pub max_ms : ℕ

abbrev pub workflow_step_max_attempts : ℕ
workflow_step_max_attempts = 5

-- What the validators of the model let through.
unfoldable pub is_policy : RetryPolicy → Bool
is_policy p =
    leb 1 p.max_attempts && leb p.max_attempts workflow_step_max_attempts && leb p.base_ms p.max_ms

abbrev pub replicate {ℓ} : {A : Type ℓ} → ℕ → A → List A
replicate zero a = []
replicate (suc n) a = a ∷ replicate n a

abbrev pub pred : ℕ → ℕ
pred zero = 0
pred (suc n) = n

-- The loop, for a number of delays that are left and the next one.
unfoldable pub doubling : ℕ → ℕ → ℕ → List ℕ
doubling zero delay max_ms = []
doubling (suc n) delay max_ms = min delay max_ms ∷ doubling n (delay * 2) max_ms

unfoldable pub backoff_delays_ms : RetryPolicy → List ℕ
unfolding doubling
backoff_delays_ms p = elim p.backoff [
  | flat ↦ replicate (pred p.max_attempts) 0
  | exponential ↦ doubling (pred p.max_attempts) p.base_ms p.max_ms
]

abbrev pub nth {ℓ} : {A : Type ℓ} → List A → ℕ → Option A
nth [] n = none
nth (a ∷ l) zero = some a
nth (a ∷ l) (suc n) = nth l n

length-doubling : (n delay max_ms : ℕ) → length (doubling n delay max_ms) ≡ n
unfolding doubling
length-doubling zero delay max_ms = refl
length-doubling (suc n) delay max_ms = ground (arith, length-doubling n (delay * 2) max_ms)

length-replicate : (n a : ℕ) → length (replicate n a) ≡ n
length-replicate zero a = refl
length-replicate (suc n) a = ground (arith, length-replicate n a)

-- One delay before each retry.
pub backoff_delays_ms-length :
    (p : RetryPolicy) → length (backoff_delays_ms p) ≡ pred p.max_attempts
unfolding backoff_delays_ms
backoff_delays_ms-length p =
    elim p.backoff
      as (λ b. length (backoff_delays_ms (record p { backoff = b })) ≡ pred p.max_attempts) [
        | flat ↦ length-replicate (pred p.max_attempts) 0
        | exponential ↦ length-doubling (pred p.max_attempts) p.base_ms p.max_ms
      ]

twice : (delay k : ℕ) → delay * 2 * 2 ^ k ≡ delay * 2 ^ suc k
twice delay k =
    mul_assoc delay 2 (2 ^ k) ∙ ap (λ x. delay * x) (mul_comm 2 (2 ^ k) ∙ sym (pow-suc 2 k))

doubling-nth :
    (n k delay max_ms : ℕ)
    → k < n
    → nth (doubling n delay max_ms) k ≡ some (min (delay * 2 ^ k) max_ms)
unfolding doubling
doubling-nth zero k delay max_ms h = absurd (ground arith)
doubling-nth (suc n) zero delay max_ms h = ground arith
doubling-nth (suc n) (suc k) delay max_ms h =
    doubling-nth n k (delay * 2) max_ms (ground arith)
    ∙ ap (λ d. some (min d max_ms)) (twice delay k)

-- With exponential backoff, the delay before retry k, counted from 0 and for each k below the
-- number of attempts less one, is the smaller of the base doubled k times and the ceiling.
pub backoff_delays_ms-nth :
    (p : RetryPolicy) (k : ℕ)
    → p.backoff ≡ exponential
    → k < pred p.max_attempts
    → nth (backoff_delays_ms p) k ≡ some (min (p.base_ms * 2 ^ k) p.max_ms)
unfolding backoff_delays_ms
backoff_delays_ms-nth p k e h =
    let it = doubling-nth (pred p.max_attempts) k p.base_ms p.max_ms h in rw e it
