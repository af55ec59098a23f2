-- ===== src/Cron/Registry.antt =====
-- `CronRegistry` of crates/cja/src/cron/registry.rs: a map from names to crons, kept as the list of
-- its entries. The parser of cron expressions is a parameter.
use cja.Common.{
  ℕ, ◌≡◌, ◌≤◌, refl, ap, sym, ◌∙◌, suc, Bool, true, false, not, Option, some, List, [], ◌∷◌, String,
  find, count, keep, find-keep, count-keep, count-keep_none, arith, if◌then◌else◌,
}
use cja.Common.Sql.{Result, ok, err, str_is, str_is_refl, str_is_sym, str_is-same}
use cja.Cron.Schedule.{Schedule, interval, cron}
use cja.Jobs.Enqueue.{EnqueueJob}
use cja.Cron.Tick.{CronJob, CronAction, callback, job}

-- `CronRegistry`
abbrev pub CronRegistry : Type 0
CronRegistry = List CronJob

unfoldable pub new : CronRegistry
new = []

abbrev pub is_named : String → CronJob → Bool
is_named name c = str_is c.name name

-- `HashMap::insert`
unfoldable pub insert_job : CronJob → CronRegistry → CronRegistry
insert_job c jobs = c ∷ keep (λ x. not (is_named c.name x)) jobs

-- `get`
unfoldable pub get : String → CronRegistry → Option CronJob
get name jobs = find (is_named name) jobs

abbrev pub cron_job : String → Option String → CronAction → Schedule → CronJob
cron_job name description action schedule = record {
  name = name;
  description = description;
  action = action;
  schedule = schedule;
}

-- `register`
unfoldable pub register : String → Option String → ℕ → CronRegistry → CronRegistry
register name description d jobs = insert_job (cron_job name description callback (interval d)) jobs

-- `register_job`
unfoldable pub register_job : EnqueueJob → Option String → ℕ → CronRegistry → CronRegistry
register_job j description d jobs =
    insert_job (cron_job j.job_name description (job j) (interval d)) jobs

module _ (parse : String → Result String (ℕ → ℕ → Option ℕ)) where
  abbrev pub parsed :
      Result String (ℕ → ℕ → Option ℕ)
      → String
      → Option String
      → CronAction
      → CronRegistry
      → Result String (Unit {0}) × CronRegistry
  parsed (err e) name description action jobs = (err e, jobs)
  parsed (ok after) name description action jobs =
      (ok tt, insert_job (cron_job name description action (cron after)) jobs)

  -- `register_with_cron`
  unfoldable pub register_with_cron :
      String → Option String → String → CronRegistry → Result String (Unit {0}) × CronRegistry
  register_with_cron name description cron_expr jobs =
      parsed (parse cron_expr) name description callback jobs

  -- `register_job_with_cron`
  unfoldable pub register_job_with_cron :
      EnqueueJob → Option String → String → CronRegistry → Result String (Unit {0}) × CronRegistry
  register_job_with_cron j description cron_expr jobs =
      parsed (parse cron_expr) j.job_name description (job j) jobs

-- A map holds at most one entry for each name.
pub record IsMap (jobs : CronRegistry) : Type 0 where
  pub single : (name : String) → count (is_named name) jobs ≤ 1

-- One cron has been registered: it is the entry of its name, in place of an earlier one, the
-- entries of all other names are as they were, and each name still has at most one.
pub record Registered (c : CronJob) (before after : CronRegistry) : Type 0 where
  pub entry : get c.name after ≡ some c
  pub others : (name : String) → str_is c.name name ≡ false → get name after ≡ get name before
  pub map : IsMap after

not_named :
    (c x : CronJob) (name : String)
    → str_is c.name name ≡ false
    → is_named name x ≡ true
    → not (is_named c.name x) ≡ true
not_named c x name h k = ap not (str_is-same x.name name c.name k ∙ str_is_sym c.name name h)

unmatched :
    (c x : CronJob) (name : String)
    → str_is c.name name ≡ true
    → is_named name x ≡ true
    → not (is_named c.name x) ≡ false
unmatched c x name h k =
    ap not (
      str_is-same x.name name c.name k
      ∙ sym (str_is-same c.name name c.name h)
      ∙ str_is_refl c.name)

insert_job-single :
    (c : CronJob) (jobs : CronRegistry) (name : String) (b : Bool)
    → str_is c.name name ≡ b
    → count (is_named name) jobs ≤ 1
    → let n = count (is_named name) (keep (λ x. not (is_named c.name x)) jobs) in
      (if b then suc n else n) ≤ 1
insert_job-single c jobs name true h k =
    let n =
      count-keep_none (is_named name) (λ x. not (is_named c.name x)) jobs
        (λ x. unmatched c x name h) in
    omega (arith, n)
insert_job-single c jobs name false h k =
    let n = count-keep (is_named name) (λ x. not (is_named c.name x)) jobs in omega (arith, n, k)

insert_job-Registered :
    (c : CronJob) (jobs : CronRegistry) → IsMap jobs → Registered c jobs (insert_job c jobs)
unfolding insert_job get find count
insert_job-Registered c jobs m = record {
  entry = rw (str_is_refl c.name) refl;
  others = λ name h.
      rw h
        (find-keep (is_named name) (λ x. not (is_named c.name x)) jobs (λ x. not_named c x name h));
  map = record {
    single = λ name. insert_job-single c jobs name (str_is c.name name) refl (m.single name);
  };
}

-- A registration by one of the four methods.
pub data Registration : Type 0 where
  at_interval : String → Option String → ℕ → Registration
  job_at_interval : EnqueueJob → Option String → ℕ → Registration
  with_cron : String → Option String → String → Registration
  job_with_cron : EnqueueJob → Option String → String → Registration

abbrev pub name_of : Registration → String
name_of (at_interval name _ _) = name
name_of (job_at_interval j _ _) = j.job_name
name_of (with_cron name _ _) = name
name_of (job_with_cron j _ _) = j.job_name

abbrev pub action_of : Registration → CronAction
action_of (at_interval _ _ _) = callback
action_of (job_at_interval j _ _) = job j
action_of (with_cron _ _ _) = callback
action_of (job_with_cron j _ _) = job j

abbrev pub description_of : Registration → Option String
description_of (at_interval _ description _) = description
description_of (job_at_interval _ description _) = description
description_of (with_cron _ description _) = description
description_of (job_with_cron _ description _) = description

-- The schedule that a registration asks for, of a parsed expression or an interval.
pub data AsksFor (parse : String → Result String (ℕ → ℕ → Option ℕ))
    : Registration → Schedule → Type 0 where
  every :
      {name : String} {description : Option String} (d : ℕ)
      → AsksFor parse (at_interval name description d) (interval d)
  job_every :
      {j : EnqueueJob} {description : Option String} (d : ℕ)
      → AsksFor parse (job_at_interval j description d) (interval d)
  at_slots :
      {name e : String} {description : Option String} {after : ℕ → ℕ → Option ℕ}
      → parse e ≡ ok after
      → AsksFor parse (with_cron name description e) (cron after)
  job_at_slots :
      {j : EnqueueJob} {e : String} {description : Option String} {after : ℕ → ℕ → Option ℕ}
      → parse e ≡ ok after
      → AsksFor parse (job_with_cron j description e) (cron after)

-- An expression that does not parse, and the error.
pub data Refuses (parse : String → Result String (ℕ → ℕ → Option ℕ))
    : Registration → String → Type 0 where
  no_slots :
      {name e x : String} {description : Option String}
      → parse e ≡ err x
      → Refuses parse (with_cron name description e) x
  no_job_slots :
      {j : EnqueueJob} {e x : String} {description : Option String}
      → parse e ≡ err x
      → Refuses parse (job_with_cron j description e) x

-- What a registration comes to: the cron with its name, description, action and schedule is
-- registered, or its expression is refused and nothing changes.
pub data Registering (parse : String → Result String (ℕ → ℕ → Option ℕ)) (r : Registration)
    (before after : CronRegistry) : Result String (Unit {0}) → Type 0 where
  accepted :
      (c : CronJob)
      → c.name ≡ name_of r
      → c.description ≡ description_of r
      → c.action ≡ action_of r
      → AsksFor parse r c.schedule
      → Registered c before after
      → Registering parse r before after (ok tt)
  refused :
      {e : String} → Refuses parse r e → after ≡ before → Registering parse r before after (err e)

module _ (parse : String → Result String (ℕ → ℕ → Option ℕ)) where
  abbrev pub register_by : Registration → CronRegistry → Result String (Unit {0}) × CronRegistry
  register_by (at_interval name description d) jobs = (ok tt, register name description d jobs)
  register_by (job_at_interval j description d) jobs = (ok tt, register_job j description d jobs)
  register_by (with_cron name description e) jobs = register_with_cron parse name description e jobs
  register_by (job_with_cron j description e) jobs =
      register_job_with_cron parse j description e jobs

  accepted_by :
      (r : Registration) (schedule : Schedule) (jobs : CronRegistry)
      → AsksFor parse r schedule
      → IsMap jobs
      → let c = cron_job (name_of r) (description_of r) (action_of r) schedule in
        Registering parse r jobs (insert_job c jobs) (ok tt)
  accepted_by r schedule jobs a m =
      let c = cron_job (name_of r) (description_of r) (action_of r) schedule in
      Registering.accepted c refl refl refl a (insert_job-Registered c jobs m)

  parsed-Registering :
      (r : Registration) (p : Result String (ℕ → ℕ → Option ℕ)) (jobs : CronRegistry)
      → ((after : ℕ → ℕ → Option ℕ) → p ≡ ok after → AsksFor parse r (cron after))
      → ((x : String) → p ≡ err x → Refuses parse r x)
      → IsMap jobs
      → let (result, after) = parsed parse p (name_of r) (description_of r) (action_of r) jobs in
        Registering parse r jobs after result
  parsed-Registering r (err x) jobs asks refuses m = Registering.refused (refuses x refl) refl
  parsed-Registering r (ok after) jobs asks refuses m =
      accepted_by r (cron after) jobs (asks after refl) m

  -- In a registry with at most one cron of each name, each of the four ways to register either
  -- refuses an expression that does not parse, with the parser's error, and changes nothing; or it
  -- makes the cron with the given name, description and action, and the given interval or the slots
  -- of the parsed expression, the one that `get` finds by its name, in place of an earlier one of
  -- that name. What `get` finds by other names stays, and so does the uniqueness of names.
  pub register_by-Registering :
      (r : Registration) (jobs : CronRegistry)
      → IsMap jobs
      → let (result, after) = register_by r jobs in Registering parse r jobs after result
  unfolding register register_job register_with_cron register_job_with_cron
  register_by-Registering (at_interval name description d) jobs m =
      accepted_by (at_interval name description d) (interval d) jobs (AsksFor.every d) m
  register_by-Registering (job_at_interval j description d) jobs m =
      accepted_by (job_at_interval j description d) (interval d) jobs (AsksFor.job_every d) m
  register_by-Registering (with_cron name description e) jobs m =
      parsed-Registering (with_cron name description e) (parse e) jobs
        (λ after p. AsksFor.at_slots p) (λ x p. Refuses.no_slots p) m
  register_by-Registering (job_with_cron j description e) jobs m =
      parsed-Registering (job_with_cron j description e) (parse e) jobs
        (λ after p. AsksFor.job_at_slots p) (λ x p. Refuses.no_job_slots p) m
