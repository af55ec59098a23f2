-- ===== src/Jobs/Copies.antt =====
-- How often a job stands in the tables of the queue (crates/cja/src/jobs).
use cja.Common.{
  ℕ, ◌+◌, ◌≤◌, ◌≡◌, ◌≢◌, refl, List, [], ◌∷◌, Bool, arith, not, ◌==◌, keep, count, modify,
  ℕ_discrete,
}
use cja.Jobs.Tables.{Message, JobFromDb, JobRow, DeadLetter, Tables, owned_by, has_id}
use cja.Jobs.Claim.{dead_letter_of}
use cja.Jobs.Claim.Burial.{buried, Owns}

abbrev pub is_letter_of : ℕ → DeadLetter → Bool
is_letter_of id d = d.original_job_id == id

-- How often a job stands in the two tables.
unfoldable pub copies : ℕ → Tables → ℕ
copies id t = count (has_id id) t.jobs + count (is_letter_of id) t.dead_letter_jobs

-- An update that keeps ids keeps the count of an id.
pub count-modify :
    (id : ℕ) (p : JobRow → Bool) (f : JobRow → JobRow) (xs : List JobRow)
    → ((r : JobRow) → (f r).job_id ≡ r.job_id)
    → count (has_id id) (modify p f xs) ≡ count (has_id id) xs
unfolding count modify
count-modify id p f [] h = refl
count-modify id p f (x ∷ xs) h = ground (arith, h x, count-modify id p f xs h)

-- The rows of an id after a delete of the owned rows of a job.
pub count-delete_self :
    (id owner : ℕ) (xs : List JobRow)
    → count (has_id id) (keep (λ r. not (owned_by id owner r)) xs) + count (owned_by id owner) xs
      ≡ count (has_id id) xs
unfolding count keep
count-delete_self id owner [] = omega arith
count-delete_self id owner (x ∷ xs) = ground (arith, count-delete_self id owner xs)

pub count-delete_ne :
    (j id owner : ℕ) (xs : List JobRow)
    → j ≢ id
    → count (has_id j) (keep (λ r. not (owned_by id owner r)) xs) ≡ count (has_id j) xs
unfolding count keep
count-delete_ne j id owner [] h = refl
count-delete_ne j id owner (x ∷ xs) h = ground (arith, count-delete_ne j id owner xs h)

pub count-delete_le :
    (j id owner : ℕ) (xs : List JobRow)
    → count (has_id j) (keep (λ r. not (owned_by id owner r)) xs) ≤ count (has_id j) xs
count-delete_le j id owner xs = elim (ℕ_discrete j id) [
  | yes e ↦ rw e (omega (arith, count-delete_self id owner xs))
  | no e ↦ omega (arith, count-delete_ne j id owner xs e)
]

-- `jobs.job_id` is the primary key.
abbrev pub IsKeyed : ℕ → Tables → Type 0
IsKeyed id t = count (has_id id) t.jobs ≤ 1

module _ (owner : ℕ) (job : JobFromDb) (t : Tables) where
  pub copies-buried :
      (id total : ℕ) (m : Message)
      → Owns job.job_id owner t
      → copies id (buried owner job total m t) ≡ copies id t
  unfolding copies count dead_letter_of
  copies-buried id total m o = elim (ℕ_discrete id job.job_id) [
    | yes e ↦ ground (arith, e, count-delete_self job.job_id owner t.jobs)
    | no e ↦ ground (arith, e, count-delete_ne id job.job_id owner t.jobs e)
  ]

  pub delete_keyed :
      (id : ℕ)
      → count (has_id id) (keep (λ r. not (owned_by job.job_id owner r)) t.jobs)
        ≤ count (has_id id) t.jobs
  delete_keyed id = count-delete_le id job.job_id owner t.jobs
