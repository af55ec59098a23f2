-- ===== src/Llm/Durable/Backing.antt =====
-- What changes of the job queue leave of the jobs that back a run
-- (crates/cja-llm/src/durable/mod.rs and crates/cja/src/jobs).
use cja.Common.{
  ℕ, ◌≡◌, refl, ap, String, Option, none, some, Bool, true, false, ◌&&◌, not, ◌==◌, ltb, List, [],
  ◌∷◌, keep, modify, count, arith, count-keep_same,
}
use cja.Common.Sql.{str_is_refl}
use cja.Jobs.Tables.{JobRow, Tables}
use cja.Jobs.Enqueue.{new_row}
use cja.Llm.Durable.Tables.{RunRow}
use cja.Llm.Durable.Worker.{Owner}
use cja.Llm.Durable.Advance.{advance_job}
use cja.Llm.Durable.Advance.Cover.{advances, is_backed, row_safe}

module _ (payload : ℕ → String) (o : Owner) (own_job : ℕ) where
  -- Another job of the run than this attempt's.
  abbrev pub is_backing : JobRow → Bool
  is_backing j = advances payload o.run_id j && not (j.job_id == own_job)

  pub enqueued-is_backed :
      (j : JobRow) (q : Tables)
      → is_backed payload o own_job q ≡ true
      → is_backed payload o own_job (record q { jobs = j ∷ q.jobs }) ≡ true
  unfolding count
  enqueued-is_backed j q h = ground arith

  pub fresh-is_backed :
      (context : String) (created_at fresh : ℕ) (q : Tables)
      → (fresh == own_job) ≡ false
      → is_backed payload o own_job
          (record q { jobs = advance_job payload o.run_id context created_at fresh ∷ q.jobs })
        ≡ true
  unfolding new_row count
  fresh-is_backed context created_at fresh q ne =
      rw (str_is_refl "AdvanceRunJob", str_is_refl (payload o.run_id), ne) (ground arith)

  kept :
      (j : JobRow) (p : JobRow → Bool)
      → (p j ≡ true → is_backing j ≡ false)
      → is_backing j ≡ true
      → not (p j) ≡ true
  kept j p h k =
      elim (p j) as (λ b. (b ≡ true → is_backing j ≡ false) → not b ≡ true) [
        | true ↦ λ x. absurd (cc (x refl, k))
        | false ↦ λ x. refl
      ]
        h

  pub deleted-is_backed :
      (p : JobRow → Bool) (q : Tables)
      → ((j : JobRow) → p j ≡ true → is_backing j ≡ false)
      → is_backed payload o own_job (record q { jobs = keep (λ j. not (p j)) q.jobs })
        ≡ is_backed payload o own_job q
  deleted-is_backed p q h =
      ap (ltb 0) (count-keep_same is_backing (λ j. not (p j)) q.jobs (λ j k. kept j p (h j) k))

  modified-count :
      (p : JobRow → Bool) (f : JobRow → JobRow) (xs : List JobRow)
      → ((j : JobRow) → is_backing (f j) ≡ is_backing j)
      → count is_backing (modify p f xs) ≡ count is_backing xs
  unfolding count modify
  modified-count p f [] h = refl
  modified-count p f (x ∷ xs) h = ground (arith, h x, modified-count p f xs h)

  pub modified-is_backed :
      (p : JobRow → Bool) (f : JobRow → JobRow) (q : Tables)
      → ((j : JobRow) → is_backing (f j) ≡ is_backing j)
      → is_backed payload o own_job (record q { jobs = modify p f q.jobs })
        ≡ is_backed payload o own_job q
  modified-is_backed p f q h = ap (ltb 0) (modified-count p f q.jobs h)

  pub backed-row_safe :
      (b : Bool) (row : Option RunRow) → b ≡ true → row_safe payload o own_job b row ≡ true
  backed-row_safe b none h = refl
  backed-row_safe b (some r) h = rw h (ground arith)

  pub row_safe_mono :
      (b b' : Bool) (row : Option RunRow)
      → (b ≡ true → b' ≡ true)
      → row_safe payload o own_job b row ≡ true
      → row_safe payload o own_job b' row ≡ true
  row_safe_mono b b' none h s = refl
  row_safe_mono true b' (some r) h s = backed-row_safe b' (some r) (h refl)
  row_safe_mono false true (some r) h s = backed-row_safe true (some r) refl
  row_safe_mono false false (some r) h s = s
